-- ===== src/Bus/Pump.antt =====
-- `_AuditPump` (namisync/dispatcher/event_bus.py): a bounded queue between the hub and the thread
-- that feeds the audit observer. The producer's methods and each turn of the thread are steps on
-- its state; what the observer's methods do is a step's argument. A `put` that waits is taken when
-- its wait ends: with room it appends, without it raised `Full`.
pub mod Acknowledged
use nami_sync.Base.{
  Bool, true, false, not, ◌||◌, ◌&&◌, List, [], ◌∷◌, ◌++◌, Option, none, some, ℕ, if◌then◌else◌,
  leb, ltb, raise_if, Result, ok, err, ◌>>=◌, ◌>>◌,
}
use nami_sync.Base.Lists.{length}
use nami_sync.Evidence.{RecordingStatus}
use nami_sync.Session.{Exn}
use nami_sync.Session.Results.{OperationResult}
use nami_sync.Events.{Envelope}

pub data Command : Type 0 where
  event : Envelope → Command
  finalize : OperationResult → Command
  stop : Command

-- `closed` is the event of that name, which the thread sets as it ends; `completed` is the
-- `_Finalize` command's `succeeded` once it is `complete`; `delivered` lists the events whose
-- `on_event` returned.
pub record AuditPump : Type 0 where
  pub capacity : ℕ
  pub queue : List Command
  pub degraded : Bool
  pub closed : Bool
  pub completed : Option Bool
  pub delivered : List Envelope

-- `__init__`
unfoldable pub start_pump : ℕ → Result Exn AuditPump
start_pump capacity = do
  raise_if (ltb capacity 1) (Exn.value_error "audit capacity must be positive")
  ok (record {
    capacity = capacity;
    queue = [];
    degraded = false;
    closed = false;
    completed = none;
    delivered = [];
  })

abbrev is_full : AuditPump → Bool
is_full p = leb p.capacity (length p.queue)

-- `offer`
unfoldable pub offer : Envelope → AuditPump → AuditPump
offer e p =
    if p.degraded
    then p
    else if is_full p
    then record p { degraded = true }
    else record p { queue = p.queue ++ event e ∷ [] }

-- The part of `finalize` that hands the command over.
unfoldable pub ask : OperationResult → AuditPump → AuditPump
ask result p =
    if p.degraded
    then (if is_full p then p else record p { queue = p.queue ++ stop ∷ [] })
    else if is_full p
    then record p { degraded = true }
    else record p { queue = p.queue ++ finalize result ∷ [] }

-- The part of `finalize` that answers, when the command is complete or its wait has ended.
unfoldable pub answer : AuditPump → AuditPump × RecordingStatus
answer p = if p.degraded then (p, RecordingStatus.degraded) else elim p.completed [
  | none ↦ (record p { degraded = true }, RecordingStatus.degraded)
  | some succeeded ↦ (p, if succeeded then RecordingStatus.ok else RecordingStatus.degraded)
]

-- Whether the observer's methods return; `false` is a raised exception.
pub record Replies : Type 0 where
  pub on_event : Bool
  pub finalize : Bool
  pub close : Bool

-- One command of `_run`.
abbrev perform : Command → Replies → AuditPump → AuditPump
perform stop replies p = record p { closed = true; degraded = p.degraded || not replies.close }
perform (finalize result) replies p =
    if p.degraded
    then record p { closed = true; completed = some false }
    else if replies.finalize && replies.close
    then record p { closed = true; completed = some true }
    else record p { closed = true; completed = some false; degraded = true }
perform (event e) replies p =
    if p.degraded
    then p
    else if replies.on_event
    then record p { delivered = p.delivered ++ e ∷ [] }
    else record p { degraded = true }

-- A turn of the thread: it takes the oldest command, waits on an empty queue, or has ended.
unfoldable pub turn : Replies → AuditPump → AuditPump
turn replies p = if p.closed then p else elim p.queue [
  | [] ↦ p
  | command ∷ rest ↦ perform command replies (record p { queue = rest })
]

-- The part of `close` that asks the thread to stop; `false` when the queue stayed full.
unfoldable pub close : AuditPump → AuditPump × Bool
close p =
    if p.closed
    then (p, true)
    else if is_full p
    then (record p { degraded = true }, false)
    else (record p { queue = p.queue ++ stop ∷ [] }, true)
