-- ===== src/Bus/Hub/Subscribing.antt =====
-- What a new subscriber is given (namisync/dispatcher/event_bus.py).
use mathlib.Core.Path.{subst}
use nami_sync.Base.{
  ◌≡◌, refl, ap, true, false, ◌||◌, List, [], ◌∷◌, ◌++◌, ℕ, ◌+◌, ◌-◌, ◌≤◌, ◌<◌, arith,
  if◌then◌else◌, leb, leb→le, Bool-cases, inl, inr, ok, Result-cases, Option,
}
use nami_sync.Base.Lists.{
  length, length-drop, drop, keep, All, All-map, All-keep_both, any, any_mono,
}
use nami_sync.Evidence.{Datetime}
use nami_sync.Events.{EventBody, Envelope, make_envelope}
use nami_sync.Bus.Stream.{EventStream, open_stream}
use nami_sync.Bus.Stream.Delivery.{
  accounts, covers, Action, drive, drive-Accounted, InOrder, promises,
}
use nami_sync.Bus.Hub.{
  EventHub, subscribe, initial_items, requested_seq, select, starts_after, gap_needed, allowance,
  overflows, delivered, gap_envelope,
}
use nami_sync.Bus.Hub.History.{emit_all, emit_all-IsReplay}
use nami_sync.Bus.Hub.Replay.{IsReplay, is_event, is_event-seq, retained, evicted}

is_event-accounts : (n : ℕ) (e : Envelope) → is_event n e ≡ true → accounts n e ≡ true
unfolding is_event
is_event-accounts n e h = ground arith

select-is_event :
    (n requested : ℕ) (items : List Envelope)
    → requested ≤ n
    → any (is_event n) items ≡ true
    → any (is_event n) (select requested items) ≡ true
select-is_event n requested [] le h = h
select-is_event n requested (e ∷ items) le h =
    ground (arith, is_event-seq n e, select-is_event n requested items le)

evicted-starts_after :
    (n requested : ℕ) (items : List Envelope)
    → requested ≤ n
    → evicted n items ≡ true
    → starts_after requested (select requested items) ≡ true
evicted-starts_after n requested [] le h = refl
evicted-starts_after n requested (e ∷ items) le h = ground arith

-- Without a gap, what was asked for and is not given up is selected.
select-covers :
    (n requested : ℕ) (hub : EventHub)
    → requested ≤ n
    → n ≤ hub.seq
    → retained n hub.replay ≡ true
    → gap_needed requested hub ≡ false
    → covers n (select requested hub.replay) ≡ true
select-covers n requested hub le known r g =
    any_mono (is_event n) (accounts n) (is_event-accounts n) (select requested hub.replay) (
      ground (
        arith,
        select-is_event n requested hub.replay le,
        evicted-starts_after n requested hub.replay le,
      ))

delivered_whole :
    (requested : ℕ) (hub : EventHub)
    → overflows requested hub ≡ false
    → delivered requested hub ≡ select requested hub.replay
delivered_whole requested hub h =
    ap (λ k. drop k (select requested hub.replay))
      {x = length (select requested hub.replay) - allowance requested hub} {y = 0} (ground arith)

-- The items that `subscribe` hands over, on both branches.
abbrev given : ℕ → Datetime → EventHub → List Envelope
given requested now hub =
    if gap_needed requested hub || overflows requested hub
    then gap_envelope hub requested now ∷ delivered requested hub
    else delivered requested hub

make_envelope-eq : (e e' : Envelope) → make_envelope e ≡ ok e' → e' ≡ e
unfolding make_envelope
make_envelope-eq e e' h = ground arith

initial_items-eq :
    (requested : ℕ) (now : Datetime) (hub : EventHub) (items : List Envelope)
    → initial_items requested now hub ≡ ok items
    → items ≡ given requested now hub
unfolding initial_items
initial_items-eq requested now hub items h =
    elim (Result-cases (make_envelope (gap_envelope hub requested now))) [
      | inl (e, m) ↦ ground (arith, make_envelope-eq (gap_envelope hub requested now) e m)
      | inr (x, m) ↦ ground arith
    ]

-- A subscription that succeeds: the stream's items, and what else is known of the stream.
subscribe-eq :
    (from_seq : Option ℕ) (now : Datetime) (hub hub' : EventHub) (s : EventStream)
    → subscribe from_seq now hub ≡ ok (hub', s)
    → (s.items ≡ given (requested_seq from_seq) now hub)
      × (s.closed ≡ false)
      × (s.capacity ≡ hub.subscriber_capacity)
unfolding subscribe open_stream
subscribe-eq from_seq now hub hub' s h =
    elim (Result-cases (initial_items (requested_seq from_seq) now hub)) [
      | inl (items, m) ↦ ground (arith, initial_items-eq (requested_seq from_seq) now hub items m)
      | inr (x, m) ↦ ground arith
    ]

given-covers :
    (n requested : ℕ) (now : Datetime) (hub : EventHub)
    → requested ≤ n
    → n ≤ hub.seq
    → retained n hub.replay ≡ true
    → covers n (given requested now hub) ≡ true
given-covers n requested now hub le known r =
    elim (Bool-cases (gap_needed requested hub || overflows requested hub)) [
      | inl gap ↦ rw gap (ground arith)
      | inr whole ↦
          ground (arith, delivered_whole requested hub, select-covers n requested hub le known r)
    ]

-- The numbers that a subscriber from `requested` on asks for.
abbrev pub asked : ℕ → List ℕ → List ℕ
asked requested = keep (leb requested)

subscribe-covers :
    (promised : List ℕ) (from_seq : Option ℕ) (now : Datetime) (hub hub' : EventHub)
    (s : EventStream)
    → IsReplay promised hub
    → subscribe from_seq now hub ≡ ok (hub', s)
    → All (λ n. covers n s.items ≡ true) (asked (requested_seq from_seq) promised)
subscribe-covers promised from_seq now hub hub' s v h =
    rw ((subscribe-eq from_seq now hub hub' s h).0) (
      All-map _ _
        (λ n k. given-covers n (requested_seq from_seq) now hub (leb→le _ n k.1) k.0.0 k.0.1)
        (asked (requested_seq from_seq) promised)
        (All-keep_both _ (leb (requested_seq from_seq)) promised v.kept))

-- A hub has emitted any bodies, an observer subscribes to it from any number on, and then reads
-- while the hub offers it later events in increasing sequence. Each reliable event that was
-- emitted, from that number on, before or after the subscription, is accounted for by what the
-- observer has read and what it still can read: by the event itself, or by a gap that starts at
-- or before it.
pub subscriber_accounts :
    (bodies : List (EventBody × Datetime)) (fresh hub : EventHub) (promised : List ℕ)
    (from_seq : Option ℕ) (now : Datetime) (hub' : EventHub) (s : EventStream)
    (actions : List Action)
    → (fresh.replay ≡ []) × (1 ≤ fresh.replay_capacity)
    → emit_all bodies fresh [] ≡ (hub, promised)
    → subscribe from_seq now hub ≡ ok (hub', s)
    → InOrder hub.seq actions
    → let (s', got) = drive actions s [] in
      All (λ n. covers n (got ++ s'.items) ≡ true) (asked (requested_seq from_seq) promised)
      × All (λ n. covers n (got ++ s'.items) ≡ true) (promises actions)
subscriber_accounts bodies fresh hub promised from_seq now hub' s actions (empty, room) history h
      o =
    let start : IsReplay [] fresh = record {
      rising = rw empty (omega arith);
      bounded = rw empty (omega arith);
      one_progress = rw empty (omega arith);
      kept = tt;
    } in
    drive-Accounted (asked (requested_seq from_seq) promised) hub.seq actions s [] o (record {
      covered =
          subscribe-covers promised from_seq now hub hub' s
            (subst (λ (p : EventHub × List ℕ). IsReplay p.1 p.0) history
              (emit_all-IsReplay bodies fresh [] room start))
            h;
      closed_gap = λ c. ground (arith, subscribe-eq from_seq now hub hub' s h);
    })

length-delivered :
    (requested : ℕ) (hub : EventHub) → length (delivered requested hub) ≤ allowance requested hub
length-delivered requested hub = omega (
  arith,
  length-drop (length (select requested hub.replay) - allowance requested hub)
      (select requested hub.replay),
)

-- A new stream holds at most one item more than its capacity.
pub length-subscribe :
    (from_seq : Option ℕ) (now : Datetime) (hub hub' : EventHub) (s : EventStream)
    → subscribe from_seq now hub ≡ ok (hub', s)
    → length s.items ≤ s.capacity + 1
length-subscribe from_seq now hub hub' s h =
    ground
      (arith, subscribe-eq from_seq now hub hub' s h, length-delivered (requested_seq from_seq) hub)

-- If more events are selected than a subscriber may hold, and the first of them is the one asked
-- for, then the new stream starts with one item more than its capacity.
pub subscribe_overfull :
    (from_seq : Option ℕ) (now : Datetime) (hub hub' : EventHub) (s : EventStream)
    → gap_needed (requested_seq from_seq) hub ≡ false
    → hub.subscriber_capacity < length (select (requested_seq from_seq) hub.replay)
    → subscribe from_seq now hub ≡ ok (hub', s)
    → length s.items ≡ s.capacity + 1
subscribe_overfull from_seq now hub hub' s g lt h = ground (
  arith,
  subscribe-eq from_seq now hub hub' s h,
  length-drop
      (length (select (requested_seq from_seq) hub.replay) - allowance (requested_seq from_seq) hub)
      (select (requested_seq from_seq) hub.replay),
)
