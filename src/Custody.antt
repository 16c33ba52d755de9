-- ===== src/Custody.antt =====
-- Resource custody inside one process (namisync/dispatcher/custody.py): the leases and
-- `InProcessResourceLockProvider`. A visit to the lock is one step.
pub mod Exclusion
use nami_sync.Base.{
  Bool, true, false, not, ◌&&◌, ◌||◌, List, [], ◌∷◌, ◌++◌, ℕ, zero, suc, Option, none, some, Eq,
  ◌==◌, contains, if◌then◌else◌, Result, ok, err,
}
use nami_sync.Base.Lists.{any, keep}
use nami_sync.Session.{Exn}
use nami_sync.Session.Records.{ResourceId, resource_eq}

-- `_CallbackLease`, with the resources that its callback gives back.
pub record Lease : Type 0 where
  pub resources : List ResourceId
  pub released : Bool

-- `_LOCAL_HELD`, and every lease that was granted, the newest first.
pub record Provider : Type 0 where
  pub held : List ResourceId
  pub leases : List Lease

-- How a visit to the loop of `acquire` ends.
pub data Attempt : Type 0 where
  granted waits canceled : Attempt

-- One visit: the test of the `while`, the two tests for cancellation, and `_LOCAL_HELD.update`.
unfoldable pub attempt : List ResourceId → Bool → Provider → Provider × Attempt
attempt resources cancel p =
    if any (contains p.held) resources
    then (p, if cancel then canceled else waits)
    else if cancel
    then (p, canceled)
    else (
      record {
        held = resources ++ p.held;
        leases = record { resources = resources; released = false } ∷ p.leases;
      },
      granted,
    )

-- The leases after `release` of one of them, and the resources that its callback gives back: none
-- the second time.
unfoldable pub release_at : ℕ → List Lease → List Lease × List ResourceId
release_at n [] = ([], [])
release_at zero (lease ∷ leases) =
    if lease.released
    then (lease ∷ leases, [])
    else (record lease { released = true } ∷ leases, lease.resources)
release_at (suc n) (lease ∷ leases) =
    let (leases', freed) = release_at n leases in (lease ∷ leases', freed)

-- `release`, of the lease at a position
unfoldable pub release : ℕ → Provider → Provider
release n p =
    let (leases', freed) = release_at n p.leases in
    record { held = keep (λ resource. not (contains freed resource)) p.held; leases = leases' }

pub data Action : Type 0 where
  attempts : List ResourceId → Bool → Action
  releases : ℕ → Action

-- Any interleaving of the threads that acquire and release.
unfoldable pub act : List Action → Provider → Provider
act [] p = p
act (attempts resources cancel ∷ actions) p = act actions (attempt resources cancel p).0
act (releases n ∷ actions) p = act actions (release n p)

abbrev pub no_leases : Provider
no_leases = record { held = []; leases = [] }
