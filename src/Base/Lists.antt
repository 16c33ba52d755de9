-- ===== src/Base/Lists.antt =====
-- Lists: lengths, predicates, filters and their laws.
use Prim.Native.Nat.{ℕ, zero, suc, ◌+◌, ◌-◌, ◌≤◌}
use mathlib.Core.Path.{◌≡◌, refl}
use mathlib.Core.Logic.{◌⊎◌, inl, inr}
use mathlib.Core.Bool.{Bool, true, false, ◌&&◌, ◌||◌}
use mathlib.Core.List.{List, [], ◌∷◌, ◌++◌}
use native.Mathlib.Omega.{arith}
use nami_sync.Base.Numbers.{if◌then◌else◌, Bool-cases}

module _ {ℓ} {A : Type ℓ} where
  abbrev pub length : List A → ℕ
  length [] = 0
  length (x ∷ xs) = suc (length xs)

  -- `xs[n:]` for a count `n`
  abbrev pub drop : ℕ → List A → List A
  drop zero xs = xs
  drop (suc n) [] = []
  drop (suc n) (x ∷ xs) = drop n xs

  -- `[x for x in xs if test(x)]`
  abbrev pub keep : (A → Bool) → List A → List A
  keep test [] = []
  keep test (x ∷ xs) = let rest = keep test xs in if test x then x ∷ rest else rest

  -- `any(test(x) for x in xs)` and `all(test(x) for x in xs)`
  abbrev pub any : (A → Bool) → List A → Bool
  any test [] = false
  any test (x ∷ xs) = test x || any test xs

  abbrev pub all : (A → Bool) → List A → Bool
  all test [] = true
  all test (x ∷ xs) = test x && all test xs

  abbrev pub All {κ} : (A → Type κ) → List A → Type κ
  All P [] = Unit
  All P (x ∷ xs) = P x × All P xs

  pub length-append : (xs ys : List A) → length (xs ++ ys) ≡ length xs + length ys
  length-append [] ys = omega arith
  length-append (x ∷ xs) ys = omega (arith, length-append xs ys)

  pub length-drop : (n : ℕ) (xs : List A) → length (drop n xs) ≡ length xs - n
  length-drop zero xs = omega arith
  length-drop (suc n) [] = omega arith
  length-drop (suc n) (x ∷ xs) = omega (arith, length-drop n xs)

  pub length-keep : (test : A → Bool) (xs : List A) → length (keep test xs) ≤ length xs
  length-keep test [] = omega arith
  length-keep test (x ∷ xs) = ground (arith, length-keep test xs)

  pub All-append {κ} : (P : A → Type κ) (xs ys : List A) → All P xs → All P ys → All P (xs ++ ys)
  All-append P [] ys hx hy = hy
  All-append P (x ∷ xs) ys hx hy = (hx.0, All-append P xs ys hx.1 hy)

  pub All-split {κ} : (P : A → Type κ) (xs ys : List A) → All P (xs ++ ys) → All P xs × All P ys
  All-split P [] ys h = (tt, h)
  All-split P (x ∷ xs) ys h = let (hx, hy) = All-split P xs ys h.1 in ((h.0, hx), hy)

  pub All-drop {κ} : (P : A → Type κ) (n : ℕ) (xs : List A) → All P xs → All P (drop n xs)
  All-drop P zero xs h = h
  All-drop P (suc n) [] h = tt
  All-drop P (suc n) (x ∷ xs) h = All-drop P n xs h.1

  pub All-keep {κ} :
      (P : A → Type κ) (test : A → Bool) (xs : List A) → All P xs → All P (keep test xs)
  All-keep P test [] h = tt
  All-keep P test (x ∷ xs) h = ground (arith, All-keep P test xs h.1)

  pub All-map {κ μ} :
      (P : A → Type κ) (Q : A → Type μ)
      → ((x : A) → P x → Q x)
      → (xs : List A) → All P xs
      → All Q xs
  All-map P Q f [] h = tt
  All-map P Q f (x ∷ xs) h = (f x h.0, All-map P Q f xs h.1)

  pub any-append :
      (test : A → Bool) (xs ys : List A) → any test (xs ++ ys) ≡ (any test xs || any test ys)
  any-append test [] ys = refl
  any-append test (x ∷ xs) ys = ground (arith, any-append test xs ys)

  -- To split on a computed list and keep the equation.
  pub List-cases : (xs : List A) → (xs ≡ []) ⊎ ((x : A) × (rest : List A) × (xs ≡ x ∷ rest))
  List-cases [] = inl refl
  List-cases (x ∷ xs) = inr (x, xs, refl)

  pub any_mono :
      (p q : A → Bool)
      → ((x : A) → p x ≡ true → q x ≡ true)
      → (xs : List A) → any p xs ≡ true
      → any q xs ≡ true
  any_mono p q f [] h = h
  any_mono p q f (x ∷ xs) h = ground (arith, f x, any_mono p q f xs)

  pub All-keep_both {κ} :
      (P : A → Type κ) (test : A → Bool) (xs : List A)
      → All P xs
      → All (λ x. P x × (test x ≡ true)) (keep test xs)
  All-keep_both P test [] h = tt
  All-keep_both P test (x ∷ xs) h = elim (Bool-cases (test x)) [
    | inl t ↦ rw t ((h.0, t), All-keep_both P test xs h.1)
    | inr f ↦ rw f (All-keep_both P test xs h.1)
  ]

  pub All-every {κ} : (P : A → Type κ) → ((x : A) → P x) → (xs : List A) → All P xs
  All-every P f [] = tt
  All-every P f (x ∷ xs) = (f x, All-every P f xs)

  pub All-zip₂ {κ μ ν} :
      (P : A → Type κ) (Q : A → Type μ) (R : A → Type ν)
      → ((x : A) → P x → Q x → R x)
      → (xs : List A) → All P xs
      → All Q xs
      → All R xs
  All-zip₂ P Q R f [] p q = tt
  All-zip₂ P Q R f (x ∷ xs) p q = (f x p.0 q.0, All-zip₂ P Q R f xs p.1 q.1)

  pub All-zip₃ {κ μ ν ρ} :
      (P : A → Type κ) (Q : A → Type μ) (R : A → Type ν) (S : A → Type ρ)
      → ((x : A) → P x → Q x → R x → S x)
      → (xs : List A) → All P xs
      → All Q xs
      → All R xs
      → All S xs
  All-zip₃ P Q R S f [] p q r = tt
  All-zip₃ P Q R S f (x ∷ xs) p q r = (f x p.0 q.0 r.0, All-zip₃ P Q R S f xs p.1 q.1 r.1)

  -- What an element of a list passes, some element passes.
  pub any_self :
      (xs : List A) → All (λ x. (test : A → Bool) → test x ≡ true → any test xs ≡ true) xs
  any_self [] = tt
  any_self (x ∷ xs) =
      (λ test h. rw h, All-map _ _ (λ y f test h. ground (arith, f test h)) xs (any_self xs))

  pub any_false→All :
      (test : A → Bool) (xs : List A) → any test xs ≡ false → All (λ x. test x ≡ false) xs
  any_false→All test [] h = tt
  any_false→All test (x ∷ xs) h = (ground arith, any_false→All test xs (ground arith))

  pub All→any_false :
      (test : A → Bool) (xs : List A) → All (λ x. test x ≡ false) xs → any test xs ≡ false
  All→any_false test [] h = refl
  All→any_false test (x ∷ xs) h = rw (h.0, All→any_false test xs h.1) refl

  pub keep_same : (p q : A → Bool) → ((x : A) → p x ≡ q x) → (xs : List A) → keep p xs ≡ keep q xs
  keep_same p q same [] = refl
  keep_same p q same (x ∷ xs) = rw (same x, keep_same p q same xs) refl
