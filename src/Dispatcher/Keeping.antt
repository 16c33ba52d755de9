-- ===== src/Dispatcher/Keeping.antt =====
-- What each control request does to the records of sessions: `pause`, `resume`, `cancel`
-- (namisync/dispatcher/dispatcher.py).
use nami_sync.Base.{
  ◌≡◌, refl, Bool, true, false, String, none, ◌==◌, string_eq, Result, ok, arith, Bool-cases,
  Result-cases, Option-cases, inl, inr,
}
use nami_sync.Base.Dict.{get}
use nami_sync.Session.{SessionState, state_eq, Exn}
use nami_sync.Session.Records.{SessionRecord}
use nami_sync.Contracts.{ControlAction, ControlResult, control_decision}
use nami_sync.Dispatcher.{
  Dispatcher, Answers, Control, request_pause, request_cancel, reset, transition_locked, announce,
}
use nami_sync.Dispatcher.Following.{
  KeptAt, KeptAt-same, KeptAt-trans, KeptAt-transition_locked, announce_records,
}
use nami_sync.Dispatcher.Controls.{
  pause, resume, cancel, grant, signal, enqueue, is_accepted, joins_queue, cancel_signalled,
  signalled,
}

pub KeptAt-announce :
    (j session_id : String) (state : SessionState) (answers : Answers) (d d' : Dispatcher)
    → KeptAt j d d'
    → KeptAt j d (announce session_id state answers d').0
KeptAt-announce j session_id state answers d d' k =
    KeptAt-trans j d d' (announce session_id state answers d').0 k (
      KeptAt-same j d' (announce session_id state answers d').0
        (announce_records session_id state answers d'))

pub enqueue_records :
    (queued : Bool) (session_id : String) (d : Dispatcher)
    → (enqueue queued session_id d).records ≡ d.records
enqueue_records true session_id d = refl
enqueue_records false session_id d = refl

KeptAt-grant :
    (j session_id : String) (state : SessionState) (queued : Bool) (r : SessionRecord)
    (answers : Answers) (d : Dispatcher)
    → KeptAt j d (grant session_id state queued r answers d).0
unfolding grant
KeptAt-grant j session_id state queued r answers d =
    let d' = (transition_locked session_id state none answers d).0 in
    let kept = KeptAt-transition_locked j session_id state none answers d in
    elim (Result-cases (transition_locked session_id state none answers d).1) [
      | inr (e, t) ↦ rw (t, grant) kept
      | inl (updated, t) ↦
          let d'' = enqueue queued session_id d' in
          rw (t, grant)
            (KeptAt-announce j session_id updated.state answers d d'' (
              KeptAt-trans j d d' d'' kept
                (KeptAt-same j d' d'' (enqueue_records queued session_id d'))))
    ]

pub signal_records :
    (request : Control → Control) (session_id : String) (d d' : Dispatcher)
    → signal request session_id d ≡ ok d'
    → d'.records ≡ d.records
unfolding signal
signal_records request session_id d d' h = ground arith

KeptAt-signalled :
    (j session_id : String) (request : Control → Control)
    (rest : Dispatcher → Dispatcher × Result Exn ControlResult)
    → ((d : Dispatcher) → KeptAt j d (rest d).0)
    → (d : Dispatcher) → KeptAt j d (signalled request session_id rest d).0
KeptAt-signalled j session_id request rest k d = elim (Result-cases (signal request session_id d)) [
  | inr (e, s) ↦ rw (s, signalled) (KeptAt-same j d d refl)
  | inl (d', s) ↦
      rw (s, signalled)
        (KeptAt-trans j d d' (rest d').0
          (KeptAt-same j d d' (signal_records request session_id d d' s)) (k d'))
]

pub KeptAt-pause :
    (j session_id : String) (answers : Answers) (d : Dispatcher)
    → KeptAt j d (pause session_id answers d).0
unfolding pause
KeptAt-pause j session_id answers d = elim (Option-cases (get session_id d.records)) [
  | inl h ↦ rw (h, pause) (KeptAt-same j d d refl)
  | inr (r, h) ↦
      elim (Bool-cases
        (is_accepted (control_decision ControlAction.pause r.state r.supports_pause))) [
          | inr refused ↦ rw (h, pause) (rw refused (KeptAt-same j d d refl))
          | inl accepted ↦
              rw (h, pause)
                (rw accepted (
                  KeptAt-signalled j session_id request_pause
                    (grant session_id SessionState.pausing false r answers)
                    (KeptAt-grant j session_id SessionState.pausing false r answers) d))
        ]
]

pub KeptAt-resume :
    (j session_id : String) (answers : Answers) (d : Dispatcher)
    → KeptAt j d (resume session_id answers d).0
unfolding resume
KeptAt-resume j session_id answers d = elim (Option-cases (get session_id d.records)) [
  | inl h ↦ rw (h, resume) (KeptAt-same j d d refl)
  | inr (r, h) ↦
      elim (Bool-cases
        (is_accepted (control_decision ControlAction.resume r.state r.supports_pause))) [
          | inr refused ↦ rw (h, resume) (rw refused (KeptAt-same j d d refl))
          | inl accepted ↦
              rw (h, resume)
                (rw accepted (
                  KeptAt-signalled j session_id reset
                    (grant session_id SessionState.pending true r answers)
                    (KeptAt-grant j session_id SessionState.pending true r answers) d))
        ]
]

KeptAt-cancel_signalled :
    (j session_id : String) (r : SessionRecord) (answers : Answers) (d : Dispatcher)
    → KeptAt j d (cancel_signalled session_id r answers d).0
unfolding cancel_signalled
KeptAt-cancel_signalled j session_id r answers d =
    elim (Bool-cases (r.state == SessionState.pausing)) [
      | inl draining ↦ rw (draining, cancel_signalled) (KeptAt-same j d d refl)
      | inr other ↦
          rw (other, cancel_signalled)
            (KeptAt-grant j session_id SessionState.canceling (joins_queue session_id r d.pending) r
              answers d)
    ]

pub KeptAt-cancel :
    (j session_id : String) (answers : Answers) (d : Dispatcher)
    → KeptAt j d (cancel session_id answers d).0
unfolding cancel
KeptAt-cancel j session_id answers d = elim (Option-cases (get session_id d.records)) [
  | inl h ↦ rw (h, cancel) (KeptAt-same j d d refl)
  | inr (r, h) ↦
      elim (Bool-cases
        (is_accepted (control_decision ControlAction.cancel r.state r.supports_pause))) [
          | inr refused ↦ rw (h, cancel) (rw refused (KeptAt-same j d d refl))
          | inl accepted ↦
              rw (h, cancel)
                (rw accepted (
                  KeptAt-signalled j session_id request_cancel
                    (cancel_signalled session_id r answers)
                    (KeptAt-cancel_signalled j session_id r answers) d))
        ]
]
