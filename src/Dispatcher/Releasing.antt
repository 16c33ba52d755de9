-- ===== src/Dispatcher/Releasing.antt =====
-- What giving back custody does to the reservations of other sessions
-- (namisync/dispatcher/dispatcher.py, `_release_custody`).
use nami_sync.Base.{
  ◌≡◌, refl, ◌∙◌, true, false, String, List, [], ◌∷◌, Option, none, some, ◌==◌, contains, string_eq,
  arith,
}
use nami_sync.Base.Dict.{get, get-remove}
use nami_sync.Session.{Exn}
use nami_sync.Session.Records.{SessionRecord, ResourceId, resource_eq}
use nami_sync.Dispatcher.{Dispatcher, release_custody, without}

contains-without :
    (gone held : List ResourceId) (x : ResourceId)
    → contains gone x ≡ true
    → contains (without gone held) x ≡ false
contains-without gone [] x h = refl
contains-without gone (y ∷ held) x h = ground (arith, contains-without gone held x h)

-- Two sessions ask for a common resource, the owner has its lease and the waiter has none, and the
-- waiter gives back custody, as a canceled one does when it settles: the owner keeps its lease, but
-- the resource is not reserved any more.
pub release_custody_unreserves :
    (owner waiter : String) (failure : Option Exn) (d : Dispatcher) (r : SessionRecord)
    (lease : List ResourceId) (x : ResourceId)
    → (owner == waiter) ≡ false
    → get owner d.leases ≡ some lease
    → get waiter d.leases ≡ none
    → get waiter d.records ≡ some r
    → (contains lease x ≡ true) × (contains r.resources x ≡ true)
    → let d' = release_custody waiter failure d in
      (get owner d'.leases ≡ some lease) × (contains d'.reserved x ≡ false)
unfolding release_custody
release_custody_unreserves owner waiter failure d r lease x apart owned unowned h (has, asks) = (
  get-remove owner waiter d.leases ∙ rw apart owned,
  rw h (contains-without r.resources d.reserved x asks),
)
