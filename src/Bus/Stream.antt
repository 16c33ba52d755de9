-- ===== src/Bus/Stream.antt =====
-- `EventStream` (namisync/dispatcher/event_bus.py). Each method holds the stream's lock, so each is
-- one step on its state.
pub mod Bounds
pub mod Delivery
pub mod Reading
use Prim.Native.Nat.{min}
use nami_sync.Base.{
  ◌≡◌, refl, Bool, true, false, String, List, [], ◌∷◌, ◌++◌, Option, none, some, ℕ, Result, ok, err,
  if◌then◌else◌, ltb, leb, raise_if, ◌>>=◌, ◌>>◌,
}
use nami_sync.Base.Lists.{length}
use nami_sync.Session.{SessionState, Exn}
use nami_sync.Events.{EventBody, Envelope, DeliveryClass, is_progress, delivery_class}

pub record EventStream : Type 0 where
  pub session_id : String
  pub current_state : SessionState
  pub capacity : ℕ
  pub items : List Envelope
  pub closed : Bool
  pub ejected : Bool

-- `EventStream.__init__`
unfoldable pub open_stream : String → ℕ → SessionState → List Envelope → Result Exn EventStream
open_stream session_id capacity current_state initial = do
  raise_if (ltb capacity 1) (Exn.value_error "subscriber capacity must be positive")
  ok (record {
    session_id = session_id;
    current_state = current_state;
    capacity = capacity;
    items = initial;
    closed = false;
    ejected = false;
  })

abbrev pub has_progress : List Envelope → Bool
has_progress [] = false
has_progress (e ∷ items) = if is_progress e.body then true else has_progress items

-- The loop from the back that deletes the last `Progress`, if there is one.
unfoldable pub drop_last_progress : List Envelope → List Envelope
drop_last_progress [] = []
drop_last_progress (e ∷ items) =
    let rest = drop_last_progress items in
    if has_progress items then e ∷ rest else if is_progress e.body then items else e ∷ items

-- The least sequence number that the consumer has not seen, over the items that are given up.
abbrev pub missed_seq : EventBody → ℕ → ℕ
missed_seq (EventBody.gap first) seq = first
missed_seq _ seq = seq

unfoldable pub first_missed : ℕ → List Envelope → ℕ
first_missed least [] = least
first_missed least (e ∷ items) = first_missed (min least (missed_seq e.body e.seq)) items

abbrev pub next_state : EventBody → SessionState → SessionState
next_state (EventBody.state_changed s) current = s
next_state _ current = current

offer_lossy : Envelope → EventStream → EventStream
offer_lossy e s =
    let items = drop_last_progress s.items in
    if leb s.capacity (length items)
    then record s { items = items }
    else record s { items = items ++ e ∷ [] }

offer_reliable : Envelope → EventStream → EventStream
offer_reliable e s =
    if leb s.capacity (length s.items)
    then record s {
      items = record e { body = EventBody.gap (first_missed e.seq s.items) } ∷ [];
      ejected = true;
      closed = true;
    }
    else record s { items = s.items ++ e ∷ []; current_state = next_state e.body s.current_state }

-- `_offer`
unfoldable pub offer : Envelope → EventStream → EventStream
unfolding offer_lossy offer_reliable delivery_class
offer e s = if s.closed then s else elim (delivery_class e.body) [
  | DeliveryClass.lossy ↦ offer_lossy e s
  | DeliveryClass.reliable ↦ offer_reliable e s
]

-- `next` yields an item, or stops, or waits until the stream changes or its deadline passes.
pub data Next : Type 0 where
  item : Envelope → Next
  stop_iteration : Next
  waiting : Next

unfoldable pub next : EventStream → EventStream × Next
next s = elim s.items [
  | [] ↦ (s, if s.closed then stop_iteration else waiting)
  | e ∷ items ↦ (record s { items = items }, item e)
]

-- `close`
unfoldable pub close : EventStream → EventStream
close s = record s { closed = true }
