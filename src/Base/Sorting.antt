-- ===== src/Base/Sorting.antt =====
-- Python's `sorted` and sets in insertion order.
use mathlib.Core.Bool.{Bool, true, false, ◌||◌}
use mathlib.Core.Path.{◌≡◌, refl}
use mathlib.Core.Logic.{inl, inr}
use mathlib.Core.List.{List, [], ◌∷◌}
use native.Mathlib.Omega.{arith}
use nami_sync.Base.Numbers.{if◌then◌else◌, Bool-cases}
use nami_sync.Base.Equality.{Eq, contains, ◌==◌, ==_sound}
use nami_sync.Base.Lists.{All}

module _ {ℓ} {A : Type ℓ} where
  module _ (leq : A → A → Bool) where
    unfoldable pub insert_sorted : A → List A → List A
    insert_sorted x [] = x ∷ []
    insert_sorted x (y ∷ ys) =
        let rest = insert_sorted x ys in if leq x y then x ∷ y ∷ ys else y ∷ rest

    -- `sorted(xs, key=...)`, with the order of the keys: equal elements keep their order.
    unfoldable pub sorted : List A → List A
    unfolding insert_sorted
    sorted [] = []
    sorted (x ∷ xs) = insert_sorted x (sorted xs)

    All-insert_sorted {κ} :
        (P : A → Type κ) (x : A) (xs : List A) → P x → All P xs → All P (insert_sorted x xs)
    unfolding insert_sorted
    All-insert_sorted P x [] hx h = (hx, tt)
    All-insert_sorted P x (y ∷ ys) hx h = ground (arith, All-insert_sorted P x ys hx h.1)

    pub All-sorted {κ} : (P : A → Type κ) (xs : List A) → All P xs → All P (sorted xs)
    unfolding sorted
    All-sorted P [] h = tt
    All-sorted P (x ∷ xs) h = All-insert_sorted P x (sorted xs) h.0 (All-sorted P xs h.1)

    module _ ⦃e : Eq A⦄ where
      contains-insert_sorted :
          (x v : A) (xs : List A) → contains (insert_sorted x xs) v ≡ contains (x ∷ xs) v
      unfolding insert_sorted
      contains-insert_sorted x v [] = refl
      contains-insert_sorted x v (y ∷ ys) = ground (arith, contains-insert_sorted x v ys)

      pub contains-sorted : (v : A) (xs : List A) → contains (sorted xs) v ≡ contains xs v
      unfolding sorted
      contains-sorted v [] = refl
      contains-sorted v (x ∷ xs) =
          ground (arith, contains-insert_sorted x v (sorted xs), contains-sorted v xs)

  -- `{*xs}`: each element once, where it first stands.
  module _ ⦃e : Eq A⦄ where
    unfoldable pub distinct_from : List A → List A → List A
    distinct_from seen [] = []
    distinct_from seen (x ∷ xs) = elim (contains seen x) [
      | true ↦ distinct_from seen xs
      | false ↦ x ∷ distinct_from (x ∷ seen) xs
    ]

    unfoldable pub distinct : List A → List A
    unfolding distinct_from
    distinct = distinct_from []

    All-distinct_from {κ} :
        (P : A → Type κ) (seen xs : List A) → All P xs → All P (distinct_from seen xs)
    unfolding distinct_from
    All-distinct_from P seen [] h = tt
    All-distinct_from P seen (x ∷ xs) h =
        ground (arith, All-distinct_from P seen xs h.1, All-distinct_from P (x ∷ seen) xs h.1)

    pub All-distinct {κ} : (P : A → Type κ) (xs : List A) → All P xs → All P (distinct xs)
    unfolding distinct
    All-distinct P xs h = All-distinct_from P [] xs h

    contains-distinct_from :
        (v : A) (seen xs : List A)
        → (contains seen v || contains (distinct_from seen xs) v)
          ≡ (contains seen v || contains xs v)
    unfolding distinct_from
    contains-distinct_from v seen [] = refl
    contains-distinct_from v seen (x ∷ xs) = elim (Bool-cases (contains seen x)) [
      | inl old ↦
          let same : (v == x) ≡ true → contains seen v ≡ true = λ h. rw (==_sound v x h) old in
          rw (old, distinct_from) (ground (arith, same, contains-distinct_from v seen xs))
      | inr new ↦ rw (new, distinct_from) (ground (arith, contains-distinct_from v (x ∷ seen) xs))
    ]

    pub contains-distinct : (v : A) (xs : List A) → contains (distinct xs) v ≡ contains xs v
    unfolding distinct
    contains-distinct v xs = contains-distinct_from v [] xs
