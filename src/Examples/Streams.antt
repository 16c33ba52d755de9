-- ===== src/Examples/Streams.antt =====
-- The event bus at concrete inputs (namisync/dispatcher/event_bus.py).
use Prim.Native.Nat.{max}
use nami_sync.Base.{◌≡◌, refl, true, false, List, [], ◌∷◌, ◌++◌, ℕ, ◌≤◌, none, some, ok, arith, pos}
use nami_sync.Base.Lists.{length, All}
use nami_sync.Evidence.{RecordingStatus, Datetime}
use nami_sync.Session.{SessionState, Exn}
use nami_sync.Events.{EventBody, Envelope, make_envelope}
use nami_sync.Bus.Order.{Rising}
use nami_sync.Bus.Stream.{EventStream, drop_last_progress, first_missed, offer, next, open_stream}
use nami_sync.Bus.Stream.Bounds.{length-offer}
use nami_sync.Bus.Stream.Delivery.{covers, promises, drive, drive_accounts}
use nami_sync.Bus.Stream.Delivery
use nami_sync.Bus.Stream.Reading.{drive_reads-Rising}
use nami_sync.Bus.Pump
use nami_sync.Bus.Pump.{AuditPump, Command, Replies, start_pump, ask, answer, turn}
use nami_sync.Bus.Pump.Acknowledged
use nami_sync.Bus.Pump.Acknowledged.{answer_delivered, offers, feed, turns}
use nami_sync.Bus.Hub.{
  EventHub, emit, deliver, next_replay, append_bounded, subscribe, initial_items,
}
use nami_sync.Bus.Hub.Replay.{IsReplay}
use nami_sync.Bus.Hub.History.{emit_all, emit_all-IsReplay}
use nami_sync.Bus.Hub.Subscribing.{subscriber_accounts, subscribe_overfull, length-subscribe}

abbrev noon : Datetime
noon = record { instant = 0; utc_offset = some (pos 0) }

abbrev phase : ℕ → Envelope
phase n = record {
  session_id = "s";
  seq = n;
  at_time = noon;
  version = 2;
  body = EventBody.phase_changed "copy";
}

abbrev small : EventStream
small = record {
  session_id = "s";
  current_state = SessionState.running;
  capacity = 2;
  items = [];
  closed = false;
  ejected = false;
}

abbrev busy : List Delivery.Action
busy =
    Delivery.Action.offered (phase 1)
    ∷ Delivery.Action.taken
    ∷ Delivery.Action.offered (phase 2)
    ∷ Delivery.Action.offered (phase 3)
    ∷ Delivery.Action.offered (phase 4)
    ∷ []

-- The third unread event ejects the reader, with a gap from the first it has not read.
busy_ejects : (drive busy small []).0.items ≡ record (phase 4) { body = EventBody.gap 2 } ∷ []
unfolding drive offer next first_missed drop_last_progress
busy_ejects = refl

length-offer_example : length (offer (phase 1) small).items ≤ max 2 0
length-offer_example = length-offer (phase 1) small (omega arith)

drive_accounts_example :
    let (s', got) = drive busy small [] in
    All (λ n. covers n (got ++ s'.items) ≡ true) (1 ∷ 2 ∷ 3 ∷ 4 ∷ [])
drive_accounts_example = drive_accounts 0 busy small refl (omega arith)

drive_reads-Rising_example : let got = (drive busy small []).1 in (high : ℕ) × Rising 0 high got
drive_reads-Rising_example = drive_reads-Rising 0 0 busy small (omega arith) (omega arith)

abbrev idle_pump : AuditPump
idle_pump = record {
  capacity = 4;
  queue = [];
  degraded = false;
  closed = false;
  completed = none;
  delivered = [];
}

abbrev all_well : Replies
all_well = record { on_event = true; finalize = true; close = true }

abbrev outcome : nami_sync.Session.Results.OperationResult
outcome = record {
  status = SessionState.completed;
  recording = RecordingStatus.ok;
  audit = RecordingStatus.ok;
  disposition = nami_sync.Session.Disposition.ran;
  canceled = false;
  operations = [];
  bytes_done = pos 0;
  bytes_total = pos 0;
  error = none;
}

abbrev audited : List Acknowledged.Action
audited =
    Acknowledged.Action.offered (phase 1)
    ∷ Acknowledged.Action.turned all_well
    ∷ Acknowledged.Action.offered (phase 2)
    ∷ []

answer_delivered_example :
    (turns (all_well ∷ all_well ∷ []) (ask outcome (feed audited idle_pump))).delivered
    ≡ phase 1 ∷ phase 2 ∷ []
unfolding answer turns ask feed Pump.offer turn
answer_delivered_example =
    answer_delivered idle_pump audited outcome (all_well ∷ all_well ∷ []) (refl, refl, refl, refl)
      refl

abbrev fresh_hub : EventHub
fresh_hub = record {
  session_id = "s";
  state = SessionState.pending;
  replay_capacity = 3;
  subscriber_capacity = 2;
  replay = [];
  subscribers = [];
  detached = [];
  seq = 0;
  audit = idle_pump;
}

abbrev bodies : List (EventBody × Datetime)
bodies =
    (EventBody.state_changed SessionState.pending, noon)
    ∷ (EventBody.phase_changed "scan", noon)
    ∷ (EventBody.phase_changed "copy", noon)
    ∷ []

abbrev hub : EventHub
hub = record fresh_hub {
  replay =
      record (phase 1) { body = EventBody.state_changed SessionState.pending }
      ∷ record (phase 2) { body = EventBody.phase_changed "scan" }
      ∷ phase 3
      ∷ [];
  seq = 3;
  audit = record idle_pump {
    queue =
        Command.event (record (phase 1) { body = EventBody.state_changed SessionState.pending })
        ∷ Command.event (record (phase 2) { body = EventBody.phase_changed "scan" })
        ∷ Command.event (phase 3)
        ∷ [];
  };
}

hub_lem : emit_all bodies fresh_hub [] ≡ (hub, 3 ∷ 2 ∷ 1 ∷ [])
unfolding emit_all emit deliver next_replay append_bounded make_envelope Pump.offer
hub_lem = refl

emit_all-IsReplay_example : let (h, promised) = emit_all bodies fresh_hub [] in IsReplay promised h
emit_all-IsReplay_example =
    emit_all-IsReplay bodies fresh_hub [] (omega arith) (record {
      rising = omega arith;
      bounded = omega arith;
      one_progress = omega arith;
      kept = tt;
    })

abbrev late : EventStream
late = record small {
  current_state = SessionState.pending;
  items =
      record (phase 1) { body = EventBody.gap 1 }
      ∷ record (phase 2) { body = EventBody.phase_changed "scan" }
      ∷ phase 3
      ∷ [];
}

late_lem : subscribe none noon hub ≡ ok (record hub { subscribers = late ∷ [] }, late)
unfolding subscribe initial_items make_envelope open_stream
late_lem = refl

subscriber_accounts_example :
    let (s', got) =
      drive (Delivery.Action.taken ∷ Delivery.Action.offered (phase 4) ∷ []) late [] in
    All (λ n. covers n (got ++ s'.items) ≡ true) (3 ∷ 2 ∷ 1 ∷ [])
    × All (λ n. covers n (got ++ s'.items) ≡ true) (4 ∷ [])
subscriber_accounts_example =
    subscriber_accounts bodies fresh_hub hub (3 ∷ 2 ∷ 1 ∷ []) none noon
      (record hub { subscribers = late ∷ [] }) late
      (Delivery.Action.taken ∷ Delivery.Action.offered (phase 4) ∷ []) (refl, omega arith) hub_lem
      late_lem (omega arith)

length-subscribe_example : length late.items ≤ 3
length-subscribe_example =
    length-subscribe none noon hub (record hub { subscribers = late ∷ [] }) late late_lem

-- Two slots, and three items in them.
subscribe_overfull_example : length late.items ≡ 3
subscribe_overfull_example =
    subscribe_overfull none noon hub (record hub { subscribers = late ∷ [] }) late refl
      (omega arith) late_lem
