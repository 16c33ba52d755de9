-- ===== src/Bus/Order.antt =====
-- Envelopes in strictly increasing sequence.
use nami_sync.Base.{List, [], ◌∷◌, ◌++◌, ℕ, ◌≤◌, ◌<◌, arith}
use nami_sync.Events.{Envelope}

-- Strictly increasing sequence numbers, each above `low` and none above `high`.
abbrev pub Rising : ℕ → ℕ → List Envelope → Type 0
Rising low high [] = low ≤ high
Rising low high (e ∷ items) = (low < e.seq) × Rising e.seq high items

pub Rising-bounds : (low high : ℕ) (items : List Envelope) → Rising low high items → low ≤ high
Rising-bounds low high [] h = h
Rising-bounds low high (e ∷ items) h = omega (arith, Rising-bounds e.seq high items h.1)

pub Rising-lower :
    (low low' high : ℕ) (items : List Envelope)
    → low' ≤ low
    → Rising low high items
    → Rising low' high items
Rising-lower low low' high [] le h = omega arith
Rising-lower low low' high (e ∷ items) le h = (omega arith, h.1)

pub Rising-raise :
    (low high high' : ℕ) (items : List Envelope)
    → high ≤ high'
    → Rising low high items
    → Rising low high' items
Rising-raise low high high' [] le h = omega arith
Rising-raise low high high' (e ∷ items) le h = (h.0, Rising-raise e.seq high high' items le h.1)

pub Rising-append :
    (low mid high : ℕ) (xs ys : List Envelope)
    → Rising low mid xs
    → Rising mid high ys
    → Rising low high (xs ++ ys)
Rising-append low mid high [] ys hx hy = Rising-lower mid low high ys hx hy
Rising-append low mid high (e ∷ xs) ys hx hy = (hx.0, Rising-append e.seq mid high xs ys hx.1 hy)

pub Rising-prefix :
    (low high : ℕ) (xs ys : List Envelope) → Rising low high (xs ++ ys) → Rising low high xs
Rising-prefix low high [] ys h = Rising-bounds low high ys h
Rising-prefix low high (e ∷ xs) ys h = (h.0, Rising-prefix e.seq high xs ys h.1)

-- Some part of a rising list, after a prefix, may be replaced by any other rising list.
pub Rising-suffix :
    (low high : ℕ) (xs ys : List Envelope) → Rising low high (xs ++ ys) → Rising low high ys
Rising-suffix low high [] ys h = h
Rising-suffix low high (e ∷ xs) ys h =
    Rising-lower e.seq low high ys (omega arith) (Rising-suffix e.seq high xs ys h.1)

pub Rising-end :
    (low high : ℕ) (items : List Envelope) (e : Envelope)
    → Rising low high items
    → high < e.seq
    → Rising low e.seq (items ++ e ∷ [])
Rising-end low high items e h lt = Rising-append low high e.seq items (e ∷ []) h (lt, omega arith)
