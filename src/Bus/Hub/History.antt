-- ===== src/Bus/Hub/History.antt =====
-- A hub over any sequence of emissions: its sequence numbers and its replay buffer
-- (namisync/dispatcher/event_bus.py).
use native.Mathlib.Nat.{le_refl}
use nami_sync.Base.{
  ◌≡◌, true, List, [], ◌∷◌, ◌++◌, ℕ, suc, ◌+◌, ◌≤◌, ◌<◌, arith, if◌then◌else◌, leb, Bool-cases, inl,
  inr, Result, ok, err, Result-cases,
}
use nami_sync.Base.Lists.{
  length, length-append, drop, length-drop, All, All-append, All-map, any-append,
}
use nami_sync.Evidence.{Datetime}
use nami_sync.Session.{Exn}
use nami_sync.Events.{EventBody, Envelope, make_envelope, is_progress}
use nami_sync.Bus.Order.{Rising, Rising-raise, Rising-lower, Rising-end}
use nami_sync.Bus.Stream.{drop_last_progress}
use nami_sync.Bus.Stream.Bounds.{length-drop_last_progress}
use nami_sync.Bus.Stream.Reading.{drop_last_progress-Rising}
use nami_sync.Bus.Stream.Delivery.{is_due, due}
use nami_sync.Bus.Hub.{EventHub, append_bounded, next_replay, deliver, stamp, emit}
use nami_sync.Bus.Hub.Replay.{
  IsReplay, is_event, retained, progress_count, progress_count-append,
  progress_count-drop_last_progress, retained-next_replay,
}

-- What `next_replay` appends to.
kept_front : ℕ → List Envelope → Envelope → List Envelope
kept_front capacity replay e =
    let items = if is_progress e.body then drop_last_progress replay else replay in
    if leb capacity (length items) then drop 1 items else items

next_replay_end :
    (capacity : ℕ) (replay : List Envelope) (e : Envelope)
    → next_replay capacity replay e ≡ kept_front capacity replay e ++ e ∷ []
unfolding next_replay append_bounded kept_front
next_replay_end capacity replay e = ground arith

drop_one-Rising :
    (low high : ℕ) (items : List Envelope) → Rising low high items → Rising low high (drop 1 items)
drop_one-Rising low high [] r = r
drop_one-Rising low high (e ∷ items) r = Rising-lower e.seq low high items (omega arith) r.1

progress_count-drop_one :
    (items : List Envelope) → progress_count (drop 1 items) ≤ progress_count items
progress_count-drop_one [] = omega arith
progress_count-drop_one (e ∷ items) = ground arith

kept_front_laws :
    (capacity high : ℕ) (replay : List Envelope) (e : Envelope)
    → Rising 0 high replay
    → length replay ≤ capacity
    → 1 ≤ capacity
    → progress_count replay ≤ 1
    → Rising 0 high (kept_front capacity replay e)
      × (suc (length (kept_front capacity replay e)) ≤ capacity)
      × (progress_count (kept_front capacity replay e) + progress_count (e ∷ []) ≤ 1)
unfolding kept_front
kept_front_laws capacity high replay e r b c p = ground (
  arith,
  drop_last_progress-Rising 0 high [] replay r,
  length-drop_last_progress replay,
  progress_count-drop_last_progress replay p,
  drop_one-Rising 0 high replay,
  drop_one-Rising 0 high (drop_last_progress replay),
  progress_count-drop_one replay,
  progress_count-drop_one (drop_last_progress replay),
  length-drop 1 replay,
  length-drop 1 (drop_last_progress replay),
)

due-retained :
    (capacity : ℕ) (replay : List Envelope) (e : Envelope)
    → All (λ n. (n ≤ e.seq) × (retained n (next_replay capacity replay e) ≡ true)) (due e)
unfolding is_event
due-retained capacity replay e = elim (Bool-cases (is_due e.body)) [
  | inl d ↦
      rw (d, next_replay_end)
        (
          (
            le_refl e.seq,
            ground (arith, any-append (is_event e.seq) (kept_front capacity replay e) (e ∷ [])),
          ),
          tt,
        )
  | inr d ↦ rw d tt
]

kept_before :
    (capacity last : ℕ) (replay : List Envelope) (e : Envelope) (promised : List ℕ)
    → length replay ≤ capacity
    → Rising 0 last replay
    → last < e.seq
    → All (λ n. (n ≤ last) × (retained n replay ≡ true)) promised
    → All (λ n. (n ≤ e.seq) × (retained n (next_replay capacity replay e) ≡ true)) promised
kept_before capacity last replay e promised b r lt h =
    All-map _ _ (λ n k. (omega arith, retained-next_replay n capacity last replay e b r lt k.1))
      promised h

deliver-IsReplay :
    (promised : List ℕ) (e : Envelope) (hub : EventHub)
    → IsReplay promised hub
    → 1 ≤ hub.replay_capacity
    → hub.seq < e.seq
    → IsReplay (due e ++ promised) (deliver e (record hub { seq = e.seq }))
unfolding deliver
deliver-IsReplay promised e hub v c lt =
    let (rising, shorter, counted) =
      kept_front_laws hub.replay_capacity hub.seq hub.replay e v.rising v.bounded c
        v.one_progress in
    let front = kept_front hub.replay_capacity hub.replay e in
    record {
      rising = rw next_replay_end (Rising-end 0 hub.seq front e rising lt);
      bounded = rw next_replay_end (omega (arith, length-append front (e ∷ [])));
      one_progress = rw next_replay_end (omega (arith, progress_count-append front (e ∷ [])));
      kept = All-append _ (due e) promised (due-retained hub.replay_capacity hub.replay e) (
          kept_before hub.replay_capacity hub.seq hub.replay e promised v.bounded v.rising lt
            v.kept);
    }

make_envelope-eq : (e e' : Envelope) → make_envelope e ≡ ok e' → e' ≡ e
unfolding make_envelope
make_envelope-eq e e' h = ground arith

skip-IsReplay :
    (promised : List ℕ) (hub : EventHub)
    → IsReplay promised hub
    → IsReplay promised (record hub { seq = hub.seq + 1 })
skip-IsReplay promised hub v = record {
  rising = Rising-raise 0 hub.seq (hub.seq + 1) hub.replay (omega arith) v.rising;
  bounded = v.bounded;
  one_progress = v.one_progress;
  kept = All-map _ _ (λ n k. (omega (arith, k.0), k.1)) promised v.kept;
}

-- The reliable event that an emission delivered, if it delivered one.
abbrev pub outcome_due : Result Exn Envelope → List ℕ
outcome_due (ok e) = due e
outcome_due (err x) = []

pub emit-IsReplay :
    (promised : List ℕ) (body : EventBody) (now : Datetime) (hub : EventHub)
    → IsReplay promised hub
    → 1 ≤ hub.replay_capacity
    → let (hub', outcome) = emit body now hub in IsReplay (outcome_due outcome ++ promised) hub'
unfolding emit
emit-IsReplay promised body now hub v c = elim (Result-cases (make_envelope (stamp body now hub))) [
  | inl (e, h) ↦
      rw (h, emit, make_envelope-eq (stamp body now hub) e h)
        (deliver-IsReplay promised (stamp body now hub) hub v c (omega arith))
  | inr (x, h) ↦ rw (h, emit) (skip-IsReplay promised hub v)
]

-- A sequence of emissions, with the numbers of the reliable events that they delivered.
unfoldable pub emit_all : List (EventBody × Datetime) → EventHub → List ℕ → EventHub × List ℕ
emit_all [] hub promised = (hub, promised)
emit_all ((body, now) ∷ bodies) hub promised =
    let (hub', outcome) = emit body now hub in
    emit_all bodies hub' (outcome_due outcome ++ promised)

emit-replay_capacity :
    (body : EventBody) (now : Datetime) (hub : EventHub)
    → (emit body now hub).0.replay_capacity ≡ hub.replay_capacity
unfolding emit deliver
emit-replay_capacity body now hub = elim (Result-cases (make_envelope (stamp body now hub))) [
  | inl (e, h) ↦ rw (h, emit)
  | inr (x, h) ↦ rw (h, emit)
]

-- Whatever is emitted, and however the clock misbehaves, the replay buffer of a hub keeps its
-- invariant: sequence numbers rise strictly up to the hub's, the buffer stays within its capacity
-- with at most one `Progress`, and each reliable event delivered so far is in it, unless it has
-- given up all events up to that one.
pub emit_all-IsReplay :
    (bodies : List (EventBody × Datetime)) (hub : EventHub) (promised : List ℕ)
    → 1 ≤ hub.replay_capacity
    → IsReplay promised hub
    → let (hub', promised') = emit_all bodies hub promised in IsReplay promised' hub'
unfolding emit_all
emit_all-IsReplay [] hub promised c v = v
emit_all-IsReplay ((body, now) ∷ bodies) hub promised c v =
    let (hub', outcome) = emit body now hub in
    emit_all-IsReplay bodies hub' (outcome_due outcome ++ promised) (rw emit-replay_capacity c)
      (emit-IsReplay promised body now hub v c)
