-- ===== src/Custody/Exclusion.antt =====
-- Mutual exclusion: no two leases in force share a resource
-- (namisync/dispatcher/custody.py, InProcessResourceLockProvider).
use nami_sync.Base.{
  ◌≡◌, refl, Bool, true, false, not, ◌&&◌, ◌||◌, List, [], ◌∷◌, ◌++◌, ℕ, zero, suc, ◌==◌, ==_sound,
  contains, arith, Bool-cases, inl, inr,
}
use nami_sync.Base.Lists.{any, keep, All, All-map}
use nami_sync.Session.Records.{ResourceId, resource_eq}
use nami_sync.Custody.{
  Lease, Provider, Action, attempts, releases, attempt, release_at, release, act, no_leases,
}

-- The lease is in force and holds the resource.
abbrev pub holds : Lease → ResourceId → Bool
holds lease x = not lease.released && contains lease.resources x

abbrev pub AreApart : Lease → Lease → Type 0
AreApart l m = (x : ResourceId) → (holds l x && holds m x) ≡ false

-- Any two leases, at different positions, are apart.
abbrev pub Exclusive : List Lease → Type 0
Exclusive [] = Unit
Exclusive (lease ∷ leases) = All (AreApart lease) leases × Exclusive leases

abbrev pub is_held : List Lease → ResourceId → Bool
is_held leases x = any (λ lease. holds lease x) leases

record IsKept (p : Provider) : Type 0 where
  exclusive : Exclusive p.leases
  accounted : (x : ResourceId) → contains p.held x ≡ is_held p.leases x

contains-append :
    (xs ys : List ResourceId) (x : ResourceId)
    → contains (xs ++ ys) x ≡ (contains xs x || contains ys x)
contains-append [] ys x = refl
contains-append (y ∷ xs) ys x = ground (arith, contains-append xs ys x)

contains-keep :
    (test : ResourceId → Bool) (xs : List ResourceId) (x : ResourceId)
    → contains (keep test xs) x ≡ (test x && contains xs x)
contains-keep test [] x = ground arith
contains-keep test (y ∷ xs) x = elim (Bool-cases (x == y)) [
  | inl same ↦ rw (==_sound x y same) (ground (arith, contains-keep test xs y))
  | inr other ↦ ground (arith, contains-keep test xs x)
]

-- Resources that a list does not meet are not in it.
unmet :
    (xs ys : List ResourceId)
    → any (contains ys) xs ≡ false
    → (x : ResourceId) → (contains xs x && contains ys x) ≡ false
unmet [] ys h x = refl
unmet (y ∷ xs) ys h x = elim (Bool-cases (x == y)) [
  | inl same ↦ rw (==_sound x y same) (ground (arith, unmet xs ys))
  | inr other ↦ ground (arith, unmet xs ys (ground arith) x)
]

is_held-apart :
    (l : Lease) (leases : List Lease)
    → ((x : ResourceId) → (holds l x && is_held leases x) ≡ false)
    → All (AreApart l) leases
is_held-apart l [] h = tt
is_held-apart l (m ∷ leases) h =
    (λ x. ground (arith, h x), is_held-apart l leases (λ x. ground (arith, h x)))

apart-is_held :
    (l : Lease) (leases : List Lease)
    → All (AreApart l) leases
    → (x : ResourceId) → (holds l x && is_held leases x) ≡ false
apart-is_held l [] a x = ground arith
apart-is_held l (m ∷ leases) a x = ground (arith, a.0 x, apart-is_held l leases a.1 x)

attempt-IsKept :
    (resources : List ResourceId) (cancel : Bool) (p : Provider)
    → IsKept p
    → IsKept (attempt resources cancel p).0
unfolding attempt
attempt-IsKept resources cancel p k = elim (Bool-cases (any (contains p.held) resources)) [
  | inl met ↦ rw (met, attempt) k
  | inr free ↦ elim (Bool-cases cancel) [
    | inl stop ↦ rw (free, attempt) (rw stop k)
    | inr go ↦
        rw (free, attempt)
          (rw go (record {
            exclusive = (
              is_held-apart (record { resources = resources; released = false }) p.leases
                  (λ x. ground (arith, unmet resources p.held free x, k.accounted x)),
              k.exclusive,
            );
            accounted = λ x. ground (arith, contains-append resources p.held x, k.accounted x);
          }))
  ]
]

-- A release takes back what the lease held, and no more.
release_at_held :
    (n : ℕ) (leases : List Lease) (x : ResourceId)
    → Exclusive leases
    → let (leases', freed) = release_at n leases in
      (is_held leases' x ≡ (not (contains freed x) && is_held leases x))
      × (contains freed x ≡ true → is_held leases x ≡ true)
unfolding release_at
release_at_held n [] x e = ground arith
release_at_held zero (l ∷ leases) x e = ground (arith, apart-is_held l leases e.0 x)
release_at_held (suc n) (l ∷ leases) x e =
    ground (arith, apart-is_held l leases e.0 x, release_at_held n leases x e.1)

release_at-Exclusive :
    (n : ℕ) (leases : List Lease) → Exclusive leases → Exclusive (release_at n leases).0
unfolding release_at
release_at-Exclusive n [] e = tt
release_at-Exclusive zero (l ∷ leases) e = elim (Bool-cases l.released) [
  | inl again ↦
      rw (again, release_at) (All-map (AreApart l) _ (λ m a x. ground arith) leases e.0, e.1)
  | inr first ↦
      rw (first, release_at) (All-map (AreApart l) _ (λ m a x. ground arith) leases e.0, e.1)
]
release_at-Exclusive (suc n) (l ∷ leases) e = (
  is_held-apart l (release_at n leases).0
      (λ x. ground (arith, apart-is_held l leases e.0 x, release_at_held n leases x e.1)),
  release_at-Exclusive n leases e.1,
)

release-IsKept : (n : ℕ) (p : Provider) → IsKept p → IsKept (release n p)
unfolding release
release-IsKept n p k = record {
  exclusive = release_at-Exclusive n p.leases k.exclusive;
  accounted = λ x. ground (
    arith,
    contains-keep (λ resource. not (contains (release_at n p.leases).1 resource)) p.held x,
    k.accounted x,
    release_at_held n p.leases x k.exclusive,
  );
}

act-IsKept : (actions : List Action) (p : Provider) → IsKept p → IsKept (act actions p)
unfolding act
act-IsKept [] p k = k
act-IsKept (attempts resources cancel ∷ actions) p k =
    act-IsKept actions (attempt resources cancel p).0 (attempt-IsKept resources cancel p k)
act-IsKept (releases n ∷ actions) p k = act-IsKept actions (release n p) (release-IsKept n p k)

-- However threads acquire, cancel and release, and however often a lease is released: no two
-- leases in force share a resource, and a resource is held exactly if a lease in force has it.
pub act-Exclusive :
    (actions : List Action)
    → let p = act actions no_leases in
      Exclusive p.leases × ((x : ResourceId) → contains p.held x ≡ is_held p.leases x)
act-Exclusive actions =
    let k = act-IsKept actions no_leases (record { exclusive = tt; accounted = λ x. refl }) in
    (k.exclusive, k.accounted)
