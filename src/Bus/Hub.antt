-- ===== src/Bus/Hub.antt =====
-- `EventHub` (namisync/dispatcher/event_bus.py). Each method holds the hub's lock, so each is one
-- step on its state; the clock's answer is an argument. A stream is shared with its consumer:
-- `detached` holds those that the hub no longer feeds.
pub mod Replay
pub mod History
pub mod Subscribing
use nami_sync.Base.{
  Bool, true, false, not, ◌||◌, ◌&&◌, String, List, [], ◌∷◌, ◌++◌, Option, none, some, ℕ, ◌+◌, ◌-◌,
  if◌then◌else◌, leb, ltb, raise_if, Result, ok, err, ◌>>=◌, ◌>>◌,
}
use nami_sync.Base.Lists.{length, drop, keep}
use nami_sync.Evidence.{Datetime, RecordingStatus}
use nami_sync.Session.{SessionState, Exn}
use nami_sync.Events.{EventBody, Envelope, make_envelope, schema_version, is_progress}
use nami_sync.Bus.Stream
use nami_sync.Bus.Stream.{EventStream, drop_last_progress, open_stream, next_state}
use nami_sync.Bus.Pump
use nami_sync.Bus.Pump.{AuditPump, start_pump}

pub record EventHub : Type 0 where
  pub session_id : String
  pub state : SessionState
  pub replay_capacity : ℕ
  pub subscriber_capacity : ℕ
  pub replay : List Envelope
  pub subscribers : List EventStream
  pub detached : List EventStream
  pub seq : ℕ
  pub audit : AuditPump

-- `__init__`; the audit timeout is positive and is only waited for.
unfoldable pub open_hub : String → SessionState → ℕ → ℕ → ℕ → Result Exn EventHub
open_hub session_id initial_state replay_capacity subscriber_capacity audit_capacity = do
  raise_if (ltb replay_capacity 1) (Exn.value_error "replay capacity must be positive")
  raise_if (ltb subscriber_capacity 1) (Exn.value_error "subscriber capacity must be positive")
  audit ← start_pump audit_capacity
  ok (record {
    session_id = session_id;
    state = initial_state;
    replay_capacity = replay_capacity;
    subscriber_capacity = subscriber_capacity;
    replay = [];
    subscribers = [];
    detached = [];
    seq = 0;
    audit = audit;
  })

-- `append` on a `deque(maxlen=capacity)`: a full one gives up its first item.
unfoldable pub append_bounded : ℕ → List Envelope → Envelope → List Envelope
append_bounded capacity items e =
    if leb capacity (length items) then drop 1 items ++ e ∷ [] else items ++ e ∷ []

-- The replay after an event: a `Progress` takes the place of the last one before it.
unfoldable pub next_replay : ℕ → List Envelope → Envelope → List Envelope
next_replay capacity replay e =
    append_bounded capacity (if is_progress e.body then drop_last_progress replay else replay) e

-- The streams that stay subscribed, and those that were ejected.
abbrev live : List EventStream → List EventStream
live = keep (λ s. not s.ejected)

abbrev dead : List EventStream → List EventStream
dead = keep (λ s. s.ejected)

abbrev is_terminal_body : EventBody → Bool
is_terminal_body (EventBody.terminal r) = true
is_terminal_body _ = false

abbrev pub offer_all : Envelope → List EventStream → List EventStream
offer_all e [] = []
offer_all e (s ∷ streams) = Stream.offer e s ∷ offer_all e streams

-- `emit` from the assignment of `envelope` on.
unfoldable pub deliver : Envelope → EventHub → EventHub
deliver e hub =
    let offered = offer_all e hub.subscribers in
    record hub {
      state = next_state e.body hub.state;
      replay = next_replay hub.replay_capacity hub.replay e;
      subscribers = live offered;
      detached = hub.detached ++ dead offered;
      audit =
          if is_progress e.body || is_terminal_body e.body
          then hub.audit
          else Pump.offer e hub.audit;
    }

-- The envelope that `emit` constructs.
abbrev pub stamp : EventBody → Datetime → EventHub → Envelope
stamp body now hub = record {
  session_id = hub.session_id;
  seq = hub.seq + 1;
  at_time = now;
  version = schema_version;
  body = body;
}

-- `emit`. A clock that breaks its contract makes the constructor of `Envelope` raise, after the
-- sequence number has been counted.
unfoldable pub emit : EventBody → Datetime → EventHub → EventHub × Result Exn Envelope
emit body now hub =
    let hub' = record hub { seq = hub.seq + 1 } in
    elim (make_envelope (stamp body now hub)) [
      | ok e ↦ (deliver e hub', ok e)
      | err e ↦ (hub', err e)
    ]

abbrev pub starts_after : ℕ → List Envelope → Bool
starts_after requested [] = true
starts_after requested (e ∷ items) = ltb requested e.seq

abbrev pub select : ℕ → List Envelope → List Envelope
select requested = keep (λ e. leb requested e.seq)

-- `gap_needed` as it is first assigned.
abbrev pub gap_needed : ℕ → EventHub → Bool
gap_needed requested hub =
    leb requested hub.seq && starts_after requested (select requested hub.replay)

abbrev pub allowance : ℕ → EventHub → ℕ
allowance requested hub = hub.subscriber_capacity - (if gap_needed requested hub then 1 else 0)

-- `len(selected) > allowance`
abbrev pub overflows : ℕ → EventHub → Bool
overflows requested hub = ltb (allowance requested hub) (length (select requested hub.replay))

-- `selected` as it is delivered: its last `allowance` items.
abbrev pub delivered : ℕ → EventHub → List Envelope
delivered requested hub =
    let selected = select requested hub.replay in
    drop (length selected - allowance requested hub) selected

abbrev pub gap_envelope : EventHub → ℕ → Datetime → Envelope
gap_envelope hub requested now = record {
  session_id = hub.session_id;
  seq = requested;
  at_time = now;
  version = schema_version;
  body = EventBody.gap requested;
}

-- The items of the new stream; the constructor of the gap's envelope may raise.
unfoldable pub initial_items : ℕ → Datetime → EventHub → Result Exn (List Envelope)
initial_items requested now hub =
    if gap_needed requested hub || overflows requested hub
    then (make_envelope (gap_envelope hub requested now) >>= λ e. ok (e ∷ delivered requested hub))
    else ok (delivered requested hub)

abbrev pub requested_seq : Option ℕ → ℕ
requested_seq none = 1
requested_seq (some n) = n

-- `subscribe`
unfoldable pub subscribe : Option ℕ → Datetime → EventHub → Result Exn (EventHub × EventStream)
unfolding initial_items
subscribe from_seq now hub =
    let requested = requested_seq from_seq in
    do
      raise_if (ltb requested 1) (Exn.value_error "from_seq must be positive")
      items ← initial_items requested now hub
      stream ← open_stream hub.session_id hub.subscriber_capacity hub.state items
      ok (record hub { subscribers = hub.subscribers ++ stream ∷ [] }, stream)

abbrev close_all : List EventStream → List EventStream
close_all [] = []
close_all (s ∷ streams) = Stream.close s ∷ close_all streams

-- `close`
unfoldable pub close : EventHub → EventHub × Bool
close hub =
    let (audit, closed) = Pump.close hub.audit in
    (
      record hub {
        subscribers = [];
        detached = hub.detached ++ close_all hub.subscribers;
        audit = audit;
      },
      closed,
    )
