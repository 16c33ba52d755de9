-- ===== src/Bus/Hub/Replay.antt =====
-- The replay buffer of a hub over its whole history (namisync/dispatcher/event_bus.py).
use nami_sync.Base.{
  ◌≡◌, refl, Bool, true, false, ◌||◌, ◌&&◌, List, [], ◌∷◌, ◌++◌, ℕ, suc, ◌+◌, ◌≤◌, ◌<◌, arith,
  if◌then◌else◌, leb, ltb, Bool-cases, inl, inr, ◌⊎◌,
}
use nami_sync.Base.Lists.{length, All, any, any-append}
use nami_sync.Events.{Envelope, is_progress}
use nami_sync.Bus.Order.{Rising}
use nami_sync.Bus.Stream.{drop_last_progress, has_progress}
use nami_sync.Bus.Stream.Delivery.{is_due}
use nami_sync.Bus.Hub.{EventHub, append_bounded, next_replay}

-- The reliable event numbered `n` itself.
unfoldable pub is_event : ℕ → Envelope → Bool
is_event n e = is_due e.body && (leb n e.seq && leb e.seq n)

pub is_event-seq : (n : ℕ) (e : Envelope) → is_event n e ≡ true → n ≡ e.seq
unfolding is_event
is_event-seq n e h = ground arith

-- The buffer has given up the events numbered `n` and before.
abbrev pub evicted : ℕ → List Envelope → Bool
evicted n [] = false
evicted n (e ∷ items) = ltb n e.seq

-- It holds the event, or has given it up.
abbrev pub retained : ℕ → List Envelope → Bool
retained n items = any (is_event n) items || evicted n items

abbrev pub progress_count : List Envelope → ℕ
progress_count [] = 0
progress_count (e ∷ items) =
    let rest = progress_count items in if is_progress e.body then suc rest else rest

pub record IsReplay (promised : List ℕ) (hub : EventHub) : Type 0 where
  pub rising : Rising 0 hub.seq hub.replay
  pub bounded : length hub.replay ≤ hub.replay_capacity
  pub one_progress : progress_count hub.replay ≤ 1
  pub kept : All (λ n. (n ≤ hub.seq) × (retained n hub.replay ≡ true)) promised

is_event-drop_last_progress :
    (n : ℕ) (items : List Envelope)
    → any (is_event n) (drop_last_progress items) ≡ any (is_event n) items
unfolding drop_last_progress is_event
is_event-drop_last_progress n [] = refl
is_event-drop_last_progress n (e ∷ items) = ground (arith, is_event-drop_last_progress n items)

pub progress_count-has_progress :
    (items : List Envelope)
    → (has_progress items ≡ true) × (1 ≤ progress_count items)
      ⊎ (has_progress items ≡ false) × (progress_count items ≡ 0)
progress_count-has_progress [] = inr (refl, refl)
progress_count-has_progress (e ∷ items) = elim (Bool-cases (is_progress e.body)) [
  | inl p ↦ inl (rw p, rw p (omega arith))
  | inr p ↦ rw p (progress_count-has_progress items)
]

pub progress_count-drop_last_progress :
    (items : List Envelope)
    → progress_count items ≤ 1
    → progress_count (drop_last_progress items) ≡ 0
unfolding drop_last_progress
progress_count-drop_last_progress [] h = refl
progress_count-drop_last_progress (e ∷ items) h =
    ground (arith, progress_count-has_progress items, progress_count-drop_last_progress items)

pub progress_count-append :
    (xs ys : List Envelope) → progress_count (xs ++ ys) ≡ progress_count xs + progress_count ys
progress_count-append [] ys = omega arith
progress_count-append (e ∷ xs) ys = ground (arith, progress_count-append xs ys)

-- Losing the first item and gaining a newer one at the end.
retained_rest :
    (n low high : ℕ) (d : Envelope) (items : List Envelope) (e : Envelope)
    → Rising low high (d ∷ items)
    → high < e.seq
    → retained n (d ∷ items) ≡ true
    → retained n (items ++ e ∷ []) ≡ true
retained_rest n low high d [] e r lt h = ground (arith, is_event-seq n d)
retained_rest n low high d (c ∷ items) e r lt h =
    ground (arith, is_event-seq n d, any-append (is_event n) items (e ∷ []))

retained_end :
    (n : ℕ) (items : List Envelope) (e : Envelope)
    → retained n items ≡ true
    → retained n (items ++ e ∷ []) ≡ true
retained_end n [] e h = cc
retained_end n (d ∷ items) e h = ground (arith, any-append (is_event n) items (e ∷ []))

retained-drop_last_progress :
    (n low high : ℕ) (items : List Envelope) (e : Envelope)
    → Rising low high items
    → high < e.seq
    → retained n items ≡ true
    → retained n (drop_last_progress items ++ e ∷ []) ≡ true
unfolding drop_last_progress
retained-drop_last_progress n low high [] e r lt h = cc
retained-drop_last_progress n low high (d ∷ items) e r lt h = ground (
  arith,
  retained_rest n low high d items e,
  retained_end n (d ∷ items) e,
  is_event-drop_last_progress n items,
  any-append (is_event n) (drop_last_progress items) (e ∷ []),
)

pub drop_last_progress_cases :
    (items : List Envelope)
    → (has_progress items ≡ false) × (drop_last_progress items ≡ items)
      ⊎ (has_progress items ≡ true) × (suc (length (drop_last_progress items)) ≡ length items)
unfolding drop_last_progress
drop_last_progress_cases [] = inl (refl, refl)
drop_last_progress_cases (e ∷ items) = ground (arith, drop_last_progress_cases items)

retained-append_bounded :
    (n capacity high : ℕ) (items : List Envelope) (e : Envelope)
    → Rising 0 high items
    → high < e.seq
    → retained n items ≡ true
    → retained n (append_bounded capacity items e) ≡ true
unfolding append_bounded
retained-append_bounded n capacity high [] e r lt h = cc
retained-append_bounded n capacity high (d ∷ items) e r lt h =
    elim (Bool-cases (leb capacity (length (d ∷ items)))) [
      | inl full ↦ rw (full, append_bounded) (retained_rest n 0 high d items e r lt h)
      | inr room ↦ rw (room, append_bounded) (retained_end n (d ∷ items) e h)
    ]

append_bounded_room :
    (capacity : ℕ) (items : List Envelope) (e : Envelope)
    → suc (length items) ≤ capacity
    → append_bounded capacity items e ≡ items ++ e ∷ []
unfolding append_bounded
append_bounded_room capacity items e h = ground arith

pub retained-next_replay :
    (n capacity high : ℕ) (items : List Envelope) (e : Envelope)
    → length items ≤ capacity
    → Rising 0 high items
    → high < e.seq
    → retained n items ≡ true
    → retained n (next_replay capacity items e) ≡ true
unfolding next_replay
retained-next_replay n capacity high items e b r lt h = elim (Bool-cases (is_progress e.body)) [
  | inr plain ↦ rw plain (retained-append_bounded n capacity high items e r lt h)
  | inl progress ↦ elim (drop_last_progress_cases items) [
    | inl (_, same) ↦ rw (progress, same) (retained-append_bounded n capacity high items e r lt h)
    | inr (_, shorter) ↦
        rw (progress, append_bounded_room capacity (drop_last_progress items) e (omega arith))
          (retained-drop_last_progress n 0 high items e r lt h)
  ]
]
