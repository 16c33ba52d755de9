-- ===== src/Dispatcher/Running.antt =====
-- Runs of the dispatcher: whatever its threads do, sessions move along the lifecycle
-- (namisync/dispatcher/dispatcher.py).
use nami_sync.Base.{
  ◌≡◌, refl, sym, Bool, true, false, not, String, List, [], ◌∷◌, Option, some, ◌==◌, string_eq,
  arith,
}
use nami_sync.Base.Dict.{get}
use nami_sync.Base.Lists.{All}
use nami_sync.Session.{state_eq, is_terminal}
use nami_sync.Session.Lifecycle.{terminal_stays}
use nami_sync.Session.Results.{OperationResult}
use nami_sync.Session.Records.{SessionRecord, Bytes}
use nami_sync.Dispatcher.{Dispatcher, release_custody}
use nami_sync.Dispatcher.Following.{Follows, Follows-refl, KeptAt, KeptAt-same, KeptAt-trans}
use nami_sync.Dispatcher.Keeping.{KeptAt-announce, KeptAt-pause, KeptAt-resume, KeptAt-cancel}
use nami_sync.Dispatcher.Scheduling.{schedule}
use nami_sync.Dispatcher.Controls.{begin_submit, take_order, end_submit, stop_accepting}
use nami_sync.Dispatcher.Workers.{end_core}
use nami_sync.Dispatcher.Workers.{acquired, publish_result, replace_payload}
use nami_sync.Dispatcher.Steps.{Step, step, steps, keeps}
use nami_sync.Dispatcher.Working.{
  KeptAt-enter, KeptAt-close_session, acquired_records, KeptAt-opened, release_custody_records,
  KeptAt-settle_session, KeptAt-replace_record, KeptAt-worker_done, KeptAt-transit_only,
  begin_submit_records,
}

not-false : (b : Bool) → not b ≡ true → b ≡ false
not-false b h = ground arith

same_identity :
    (r : SessionRecord) (payload : Bytes) (result : Option OperationResult)
    → Follows r (record r { payload = payload; result = result })
same_identity r payload result = record {
  reaches = (Follows-refl r).reaches;
  same_id = refl;
  same_resources = refl;
  same_support = refl;
  same_order = refl;
}

pub KeptAt-step :
    (j : String) (s : Step) (d : Dispatcher) → keeps j s ≡ true → KeptAt j d (step s d)
unfolding step publish_result replace_payload schedule take_order end_submit stop_accepting end_core
KeptAt-step j (Step.enter_session r hub) d k =
    KeptAt-enter j r hub d (not-false (j == r.session_id) k)
KeptAt-step j (Step.pause_session id answers) d k = KeptAt-pause j id answers d
KeptAt-step j (Step.resume_session id answers) d k = KeptAt-resume j id answers d
KeptAt-step j (Step.cancel_session id answers) d k = KeptAt-cancel j id answers d
KeptAt-step j (Step.close_session_step id dropped) d k =
    KeptAt-close_session j id dropped d (not-false (j == id) k)
KeptAt-step j Step.schedule_pass d k = KeptAt-same j d (schedule d) refl
KeptAt-step j (Step.acquire id r answer) d k =
    KeptAt-same j d (acquired id r answer d).0 (acquired_records id r answer d)
KeptAt-step j (Step.open_invocation id answer answers) d k = KeptAt-opened j id answer answers d
KeptAt-step j (Step.settle id state result failure answers) d k =
    KeptAt-settle_session j id state result failure answers d
KeptAt-step j (Step.publish id result answers) d k =
    KeptAt-replace_record (λ r. record r { result = some result })
      (λ r. same_identity r r.payload (some result)) j id answers d
KeptAt-step j (Step.snapshot id payload answers) d k =
    KeptAt-replace_record (λ r. record r { payload = payload })
      (λ r. same_identity r payload r.result) j id answers d
KeptAt-step j (Step.release id failure) d k =
    KeptAt-same j d (release_custody id failure d) (release_custody_records id failure d)
KeptAt-step j (Step.end_worker id answers) d k = KeptAt-worker_done j id answers d
KeptAt-step j (Step.transit id state result answers) d k =
    KeptAt-transit_only j id state result answers d
KeptAt-step j (Step.publish_state id state answers) d k =
    KeptAt-announce j id state answers d d (KeptAt-same j d d refl)
KeptAt-step j (Step.begin_submission kind is_registered) d k =
    KeptAt-same j d (begin_submit kind is_registered d).0
      (begin_submit_records kind is_registered d)
KeptAt-step j Step.hand_out_order d k = KeptAt-same j d (take_order d).0 refl
KeptAt-step j Step.end_submission d k = KeptAt-same j d (end_submit d) refl
KeptAt-step j Step.begin_shutdown d k = KeptAt-same j d (stop_accepting d).0 refl
KeptAt-step j (Step.end_run id) d k = KeptAt-same j d (end_core id d) refl

KeptAt-steps :
    (j : String) (run : List Step) (d : Dispatcher)
    → All (λ s. keeps j s ≡ true) run
    → KeptAt j d (steps run d)
unfolding steps
KeptAt-steps j [] d k = KeptAt-same j d d refl
KeptAt-steps j (s ∷ run) d k =
    KeptAt-trans j d (step s d) (steps run (step s d)) (KeptAt-step j s d k.0)
      (KeptAt-steps j run (step s d) k.1)

-- However the steps of the scheduler, the workers and the control requests interleave, and
-- whatever the clock, the store, the lock provider and the workflows answer: a session that is not
-- closed in the meantime, and whose id no new session gets, keeps its record, in a state that the
-- old one reaches along legal transitions, with the same id, resources, pause support and
-- admission order.
pub steps-Follows :
    (j : String) (run : List Step) (d : Dispatcher) (r : SessionRecord)
    → All (λ s. keeps j s ≡ true) run
    → get j d.records ≡ some r
    → (r' : SessionRecord) × (get j (steps run d).records ≡ some r') × Follows r r'
steps-Follows j run d r k h = KeptAt-steps j run d k r h

-- Once a session is in a terminal state, no interleaving of steps changes its state, as long as
-- the session is not closed and no new session gets its id.
pub steps_terminal :
    (j : String) (run : List Step) (d : Dispatcher) (r : SessionRecord)
    → All (λ s. keeps j s ≡ true) run
    → get j d.records ≡ some r
    → is_terminal r.state ≡ true
    → (r' : SessionRecord) × (get j (steps run d).records ≡ some r') × (r'.state ≡ r.state)
steps_terminal j run d r k h t =
    let (r', h', f) = steps-Follows j run d r k h in (r', h', sym (terminal_stays t f.reaches))
