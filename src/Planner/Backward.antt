-- ===== src/Planner/Backward.antt =====
-- The operations of a plan depend on operations before them (namisync/modules/planner.py).
use nami_sync.Base.{
  ◌≡◌, refl, Bool, true, false, not, ◌&&◌, String, string_eq, List, [], ◌∷◌, ◌++◌, some,
  Option-cases, Bool-cases, inl, inr, ◌==◌, contains, arith,
}
use nami_sync.Base.Dict.{Dict, get, put, get-put}
use nami_sync.Base.Lists.{All, any}
use nami_sync.Paths.{Text, text_eq, path_key}
use nami_sync.Planner.Directories.{nearest_created_parent, first_created, dependency_on}
use nami_sync.Planning.{PlanOperation, op_ids, is_dependency_ordered}
use nami_sync.Planning.Options.{Platform}

-- The ids are known.
abbrev pub Known : List String → List String → Type 0
Known known ids = All (λ id. contains known id ≡ true) ids

-- Each operation depends on known ones and on those before it.
abbrev pub IsBackward : List String → List PlanOperation → Type 0
IsBackward known [] = Unit
IsBackward known (operation ∷ operations) =
    Known known operation.dependencies × IsBackward (operation.op_id ∷ known) operations

-- The ids are new and differ.
unfoldable pub are_new : List String → List String → Bool
unfolding string_eq
are_new known [] = true
are_new known (id ∷ ids) = not (contains known id) && are_new (id ∷ known) ids

abbrev pub Within : List String → List String → Type 0
Within known wider = (id : String) → contains known id ≡ true → contains wider id ≡ true

pub contains-append :
    (xs ys : List String) (id : String)
    → contains xs id ≡ true
    → (contains (xs ++ ys) id ≡ true) × (contains (ys ++ xs) id ≡ true)
contains-append xs ys id h = (left xs h, right ys)
  where
    left : (zs : List String) → contains zs id ≡ true → contains (zs ++ ys) id ≡ true
    left [] e = ground arith
    left (z ∷ zs) e = ground (arith, left zs)

    right : (zs : List String) → contains (zs ++ xs) id ≡ true
    right [] = h
    right (z ∷ zs) = ground (arith, right zs)

pub Known-Within :
    (known wider : List String)
    → Within known wider
    → (ids : List String) → Known known ids
    → Known wider ids
Known-Within known wider f [] h = tt
Known-Within known wider f (id ∷ ids) h = (f id h.0, Known-Within known wider f ids h.1)

Within-cons :
    (known wider : List String) (id : String)
    → Within known wider
    → Within (id ∷ known) (id ∷ wider)
Within-cons known wider id f other h = ground (arith, f other)

pub IsBackward-Within :
    (known wider : List String)
    → Within known wider
    → (operations : List PlanOperation) → IsBackward known operations
    → IsBackward wider operations
IsBackward-Within known wider f [] h = tt
IsBackward-Within known wider f (operation ∷ operations) h = (
  Known-Within known wider f operation.dependencies h.0,
  IsBackward-Within (operation.op_id ∷ known) (operation.op_id ∷ wider)
      (Within-cons known wider operation.op_id f) operations h.1,
)

-- Operations that depend on what is known only.
pub IsBackward-Known :
    (known : List String) (operations : List PlanOperation)
    → All (λ operation. Known known operation.dependencies) operations
    → IsBackward known operations
IsBackward-Known known [] h = tt
IsBackward-Known known (operation ∷ operations) h = (
  h.0,
  IsBackward-Within known (operation.op_id ∷ known) (λ id e. ground arith) operations
      (IsBackward-Known known operations h.1),
)

-- What follows may depend on what is known and on the operations before it.
pub IsBackward-append :
    (known : List String) (xs ys : List PlanOperation)
    → IsBackward known xs
    → ((wider : List String) → Within known wider → Within (op_ids xs) wider → IsBackward wider ys)
    → IsBackward known (xs ++ ys)
IsBackward-append known [] ys h f = f known (λ id e. e) (λ id e. ground arith)
IsBackward-append known (x ∷ xs) ys h f = (
  h.0,
  IsBackward-append (x.op_id ∷ known) xs ys h.1 (λ wider w v.
      f wider (λ id e. w id (ground arith))
        (λ id e. elim (Bool-cases (id == x.op_id)) [
          | inl same ↦ w id (ground arith)
          | inr differs ↦ v id (ground arith)
        ])),
)

pub is_dependency_ordered-are_new :
    (known : List String) (operations : List PlanOperation)
    → IsBackward known operations
    → is_dependency_ordered known operations ≡ are_new known (op_ids operations)
unfolding is_dependency_ordered are_new
is_dependency_ordered-are_new known [] h = refl
is_dependency_ordered-are_new known (operation ∷ operations) h = ground (
  arith,
  is_dependency_ordered-are_new (operation.op_id ∷ known) operations h.1,
  none_unknown operation.dependencies h.0,
)
  where
    none_unknown :
        (ids : List String) → Known known ids → any (λ id. not (contains known id)) ids ≡ false
    none_unknown [] k = refl
    none_unknown (id ∷ ids) k = ground (arith, none_unknown ids k.1)

-- The operations of a dictionary are among the ids.
abbrev pub Holds : Dict Text PlanOperation → List String → Type 0
Holds created ids =
    (key : Text) (operation : PlanOperation)
    → get key created ≡ some operation
    → contains ids operation.op_id ≡ true

pub Holds-put :
    (created : Dict Text PlanOperation) (ids wider : List String) (key : Text)
    (operation : PlanOperation)
    → Holds created ids
    → Within ids wider
    → contains wider operation.op_id ≡ true
    → Holds (put key operation created) wider
Holds-put created ids wider key operation h f e other found g =
    ground (arith, get-put other key operation created, h other found, f found.op_id)

first_created-Known :
    (platform : Platform) (paths : List Text) (created : Dict Text PlanOperation)
    (ids : List String)
    → Holds created ids
    → Known ids (dependency_on (first_created platform paths created))
unfolding first_created
first_created-Known platform [] created ids h = tt
first_created-Known platform (path ∷ paths) created ids h =
    elim (Option-cases (get (path_key platform.upper path) created)) [
      | inl missing ↦ rw (missing, first_created) (first_created-Known platform paths created ids h)
      | inr (operation, e) ↦ rw (e, first_created) (h _ operation e, tt)
    ]

pub nearest_created_parent-Known :
    (platform : Platform) (path : Text) (created : Dict Text PlanOperation) (ids : List String)
    → Holds created ids
    → Known ids (dependency_on (nearest_created_parent platform path created))
unfolding nearest_created_parent
nearest_created_parent-Known platform path created ids h =
    first_created-Known platform _ created ids h
