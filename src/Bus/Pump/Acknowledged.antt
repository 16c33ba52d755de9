-- ===== src/Bus/Pump/Acknowledged.antt =====
-- An audit that reports success has delivered every event (namisync/dispatcher/event_bus.py).
use mathlib.Core.List.{append_assoc, append-nil}
use nami_sync.Base.{◌≡◌, refl, ap, true, false, List, [], ◌∷◌, ◌++◌, none, some, arith, ◌⊎◌}
use nami_sync.Evidence.{RecordingStatus}
use nami_sync.Session.Results.{OperationResult}
use nami_sync.Events.{Envelope}
use nami_sync.Bus.Pump.{
  AuditPump, Command, event, finalize, stop, Replies, offer, ask, answer, turn,
}

-- What happens before the session's result: events and turns of the thread.
pub data Action : Type 0 where
  offered : Envelope → Action
  turned : Replies → Action

unfoldable pub feed : List Action → AuditPump → AuditPump
feed [] p = p
feed (offered e ∷ actions) p = feed actions (offer e p)
feed (turned replies ∷ actions) p = feed actions (turn replies p)

unfoldable pub turns : List Replies → AuditPump → AuditPump
turns [] p = p
turns (replies ∷ rest) p = turns rest (turn replies p)

abbrev pub offers : List Action → List Envelope
offers [] = []
offers (offered e ∷ actions) = e ∷ offers actions
offers (turned replies ∷ actions) = offers actions

abbrev events : List Command → List Envelope
events [] = []
events (event e ∷ queue) = e ∷ events queue
events (_ ∷ queue) = events queue

abbrev OnlyEvents : List Command → Type 0
OnlyEvents [] = Unit
OnlyEvents (event e ∷ queue) = OnlyEvents queue
OnlyEvents (_ ∷ queue) = ⊥

-- Events, and the result behind them.
abbrev EndsInResult : List Command → Type 0
EndsInResult [] = ⊥
EndsInResult (event e ∷ queue) = EndsInResult queue
EndsInResult (finalize r ∷ queue) = queue ≡ []
EndsInResult (stop ∷ queue) = ⊥

events-end :
    (queue : List Command) (e : Envelope) → events (queue ++ event e ∷ []) ≡ events queue ++ e ∷ []
events-end [] e = refl
events-end (event d ∷ queue) e = ap (λ l. d ∷ l) (events-end queue e)
events-end (finalize r ∷ queue) e = events-end queue e
events-end (stop ∷ queue) e = events-end queue e

events-end_result :
    (queue : List Command) (r : OperationResult) → events (queue ++ finalize r ∷ []) ≡ events queue
events-end_result [] r = refl
events-end_result (event d ∷ queue) r = ap (λ l. d ∷ l) (events-end_result queue r)
events-end_result (finalize _ ∷ queue) r = events-end_result queue r
events-end_result (stop ∷ queue) r = events-end_result queue r

OnlyEvents-end :
    (queue : List Command) (e : Envelope) → OnlyEvents queue → OnlyEvents (queue ++ event e ∷ [])
OnlyEvents-end [] e h = tt
OnlyEvents-end (event d ∷ queue) e h = OnlyEvents-end queue e h
OnlyEvents-end (finalize r ∷ queue) e h = absurd h
OnlyEvents-end (stop ∷ queue) e h = absurd h

EndsInResult-end :
    (queue : List Command) (r : OperationResult)
    → OnlyEvents queue
    → EndsInResult (queue ++ finalize r ∷ [])
EndsInResult-end [] r h = refl
EndsInResult-end (event d ∷ queue) r h = EndsInResult-end queue r h
EndsInResult-end (finalize _ ∷ queue) r h = absurd h
EndsInResult-end (stop ∷ queue) r h = absurd h

-- Before the result: while nothing failed, what was offered is delivered or queued, in order.
record Feeding (done : List Envelope) (p : AuditPump) : Type 0 where
  open_yet : p.closed ≡ false
  unanswered : p.completed ≡ none
  only_events : OnlyEvents p.queue
  in_order : p.degraded ≡ false → p.delivered ++ events p.queue ≡ done

offer-Feeding :
    (done : List Envelope) (e : Envelope) (p : AuditPump)
    → Feeding done p
    → Feeding (done ++ e ∷ []) (offer e p)
unfolding offer
offer-Feeding done e p f = ground (
  arith,
  events-end p.queue e,
  OnlyEvents-end p.queue e,
  append_assoc p.delivered (events p.queue) (e ∷ []),
  f.in_order,
  f.only_events,
)

turn-Feeding :
    (done : List Envelope) (replies : Replies) (p : AuditPump) (queue : List Command)
    → p.queue ≡ queue
    → Feeding done p
    → Feeding done (turn replies p)
unfolding turn
turn-Feeding done replies p [] q f = ground (arith, f.in_order, f.only_events)
turn-Feeding done replies p (event e ∷ queue) q f =
    ground (arith, append_assoc p.delivered (e ∷ []) (events queue), f.in_order, f.only_events)
turn-Feeding done replies p (finalize r ∷ queue) q f = ground (arith, f.only_events)
turn-Feeding done replies p (stop ∷ queue) q f = ground (arith, f.only_events)

feed-Feeding :
    (done : List Envelope) (actions : List Action) (p : AuditPump)
    → Feeding done p
    → Feeding (done ++ offers actions) (feed actions p)
unfolding feed
feed-Feeding done [] p f = rw append-nil f
feed-Feeding done (offered e ∷ actions) p f =
    rw (← append_assoc done (e ∷ []) (offers actions))
      (feed-Feeding (done ++ e ∷ []) actions (offer e p) (offer-Feeding done e p f))
feed-Feeding done (turned replies ∷ actions) p f =
    feed-Feeding done actions (turn replies p) (turn-Feeding done replies p p.queue refl f)

-- After it: as long as nothing failed the result is queued behind the events, or it is complete
-- and all of them are delivered.
record Finishing (done : List Envelope) (p : AuditPump) : Type 0 where
  queued : p.degraded ≡ false → p.completed ≡ none → EndsInResult p.queue
  in_order : p.degraded ≡ false → p.completed ≡ none → p.delivered ++ events p.queue ≡ done
  finished : p.degraded ≡ false → p.completed ≡ some true → p.delivered ≡ done
  ended : (p.completed ≡ none) ⊎ (p.closed ≡ true)

ask-Finishing :
    (done : List Envelope) (r : OperationResult) (p : AuditPump)
    → Feeding done p
    → Finishing done (ask r p)
unfolding ask
ask-Finishing done r p f =
    ground
      (arith, events-end_result p.queue r, EndsInResult-end p.queue r, f.in_order, f.only_events)

turn-Finishing :
    (done : List Envelope) (replies : Replies) (p : AuditPump) (queue : List Command)
    → p.queue ≡ queue
    → Finishing done p
    → Finishing done (turn replies p)
unfolding turn
turn-Finishing done replies p [] q f = ground (arith, f.queued, f.in_order, f.finished, f.ended)
turn-Finishing done replies p (event e ∷ queue) q f = ground (
  arith,
  append_assoc p.delivered (e ∷ []) (events queue),
  f.queued,
  f.in_order,
  f.finished,
  f.ended,
)
turn-Finishing done replies p (finalize r ∷ queue) q f =
    ground (arith, append-nil p.delivered, f.queued, f.in_order, f.finished, f.ended)
turn-Finishing done replies p (stop ∷ queue) q f =
    ground (arith, f.queued, f.in_order, f.finished, f.ended)

turns-Finishing :
    (done : List Envelope) (replies : List Replies) (p : AuditPump)
    → Finishing done p
    → Finishing done (turns replies p)
unfolding turns
turns-Finishing done [] p f = f
turns-Finishing done (reply ∷ replies) p f =
    turns-Finishing done replies (turn reply p) (turn-Finishing done reply p p.queue refl f)

-- Events are offered to a pump that starts empty while its thread takes turns, then the result is
-- handed over and the thread takes more turns, the observer's methods returning or raising at
-- will. If the pump then answers that the audit is OK, the observer has taken every event that
-- was offered, once each and in order.
pub answer_delivered :
    (p : AuditPump) (actions : List Action) (r : OperationResult) (replies : List Replies)
    → (p.queue ≡ []) × (p.delivered ≡ []) × (p.closed ≡ false) × (p.completed ≡ none)
    → (answer (turns replies (ask r (feed actions p)))).1 ≡ RecordingStatus.ok
    → (turns replies (ask r (feed actions p))).delivered ≡ offers actions
unfolding answer
answer_delivered p actions r replies fresh h =
    let f = turns-Finishing (offers actions) replies (ask r (feed actions p)) (
      ask-Finishing (offers actions) r (feed actions p)
        (feed-Feeding [] actions p (ground arith))) in
    ground (arith, f.finished)
