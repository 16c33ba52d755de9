-- ===== src/Dispatcher/Transitions.antt =====
-- A legal transition succeeds (namisync/dispatcher/dispatcher.py, `_transition_locked`).
use nami_sync.Base.{◌≡◌, refl, sym, true, false, String, Option, some, string_eq, ok, arith}
use nami_sync.Base.Dict.{get}
use nami_sync.Evidence.{Datetime, is_utc}
use nami_sync.Session.{SessionState, state_eq, is_terminal}
use nami_sync.Session.Lifecycle.{Legal}
use nami_sync.Session.Results.{OperationResult}
use nami_sync.Session.Records.{
  SessionRecord, IsRecord, make_record_complete, has_value, result_disagrees,
}
use nami_sync.Bus.Hub.{EventHub}
use nami_sync.Dispatcher.{
  Dispatcher, Answers, transition_locked, transitioned, in_state, put_record,
}

in_state-IsRecord :
    (state : SessionState) (result : Option OperationResult) (now : Datetime) (r : SessionRecord)
    → IsRecord r
    → is_utc now ≡ true
    → result_disagrees result state ≡ false
    → IsRecord (in_state state result now r)
in_state-IsRecord state result now r v utc agrees = record {
  named = v.named;
  ordered = v.ordered;
  created_utc = v.created_utc;
  started_utc = ground (arith, v.started_utc);
  ended_utc = ground arith;
  ended_iff = ground arith;
  agrees = agrees;
}

-- For a session with a valid record and a hub, a legal transition at a time in UTC succeeds, if its
-- result, when it has one, has the new status, and whatever the store answers. The tables then have a
-- valid record in the new state, which is ended exactly if that state is terminal.
pub transition_locked_succeeds :
    (session_id : String) (state : SessionState) (result : Option OperationResult)
    (answers : Answers) (d : Dispatcher) (r : SessionRecord) (hub : EventHub)
    → get session_id d.records ≡ some r
    → get session_id d.hubs ≡ some hub
    → IsRecord r
    → Legal r.state state
    → is_utc answers.now ≡ true
    → result_disagrees result state ≡ false
    → (updated : SessionRecord) × (transition_locked session_id state result answers d
        ≡ (put_record session_id updated answers d, ok updated))
      × (updated.state ≡ state)
      × (has_value updated.ended_at ≡ is_terminal state)
      × IsRecord updated
unfolding transition_locked transitioned
transition_locked_succeeds session_id state result answers d r hub h k v legal utc agrees =
    let u = in_state state result answers.now r in
    let valid = in_state-IsRecord state result answers.now r v utc agrees in
    (u, ground (arith, make_record_complete u valid), refl, sym valid.ended_iff, valid)
