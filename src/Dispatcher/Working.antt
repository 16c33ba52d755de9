-- ===== src/Dispatcher/Working.antt =====
-- What admission, closing and the steps of a worker do to the records of sessions
-- (namisync/dispatcher/dispatcher.py).
use nami_sync.Base.{
  ◌≡◌, refl, ◌∙◌, Bool, false, ◌&&◌, String, List, [], ◌∷◌, ◌++◌, Option, none, ◌==◌, string_eq,
  Result, ok, err, arith, Bool-cases, Result-cases, Option-cases, inl, inr,
}
use nami_sync.Base.Dict.{get, get-put, get-remove}
use nami_sync.Session.{SessionState, state_eq, Exn}
use nami_sync.Session.Results.{OperationResult}
use nami_sync.Session.Records.{SessionRecord, ResourceId, make_record, make_record_sound}
use nami_sync.Runner.{Work}
use nami_sync.Bus.Hub.{EventHub}
use nami_sync.Dispatcher.{Dispatcher, Answers, transition_locked, lookup, release_custody}
use nami_sync.Dispatcher.Following.{
  Follows, Follows-refl, KeptAt, KeptAt-same, KeptAt-trans, KeptAt-put_record,
  KeptAt-transition_locked, lookup-get,
}
use nami_sync.Dispatcher.Keeping.{KeptAt-announce}
use nami_sync.Dispatcher.Controls.{enter, close_session, begin_submit}
use nami_sync.Dispatcher.Workers.{
  acquired, opened, settle_session, replace_record, worker_done, transition_result, is_canceling,
  is_paused, without_worker, cancel_is_set,
}
use nami_sync.Dispatcher.Steps.{transit_only}

pub KeptAt-enter :
    (j : String) (r : SessionRecord) (hub : EventHub) (d : Dispatcher)
    → (j == r.session_id) ≡ false
    → KeptAt j d (enter r hub d).0
unfolding enter
KeptAt-enter j r hub d other s h = elim (Bool-cases d.accepting) [
  | inr stopped ↦ rw (stopped, enter) (s, h, Follows-refl s)
  | inl accepting ↦
      rw (accepting, enter) (s, get-put j r.session_id r d.records ∙ rw other h, Follows-refl s)
]

pub KeptAt-close_session :
    (j session_id : String) (dropped : Option Exn) (d : Dispatcher)
    → (j == session_id) ≡ false
    → KeptAt j d (close_session session_id dropped d).0
unfolding close_session
KeptAt-close_session j session_id dropped d other s h =
    (s, ground (arith, get-remove j session_id d.records), Follows-refl s)

pub acquired_records :
    (session_id : String) (r : SessionRecord) (answer : Result Exn (List ResourceId))
    (d : Dispatcher)
    → (acquired session_id r answer d).0.records ≡ d.records
unfolding acquired
acquired_records session_id r answer d = ground arith

pub KeptAt-opened :
    (j session_id : String) (answer : Result Exn Work) (answers : Answers) (d : Dispatcher)
    → KeptAt j d (opened session_id answer answers d).0
unfolding opened
KeptAt-opened j session_id (err e) answers d = KeptAt-same j d d refl
KeptAt-opened j session_id (ok invocation) answers d =
    elim (Option-cases (get session_id d.records)) [
      | inl h ↦ rw (h, opened) (KeptAt-same j d d refl)
      | inr (r, h) ↦ elim (Bool-cases (is_canceling r)) [
        | inl c ↦ rw (h, opened) (rw c (KeptAt-same j d d refl))
        | inr c ↦
            let d' = (transition_locked session_id SessionState.running none answers d).0 in
            let kept = KeptAt-transition_locked j session_id SessionState.running none answers d in
            elim (Result-cases
              (transition_locked session_id SessionState.running none answers d).1) [
                | inr (e, t) ↦ rw (h, opened) (rw c (rw t kept))
                | inl (updated, t) ↦
                    rw (h, opened)
                      (rw c (rw t (KeptAt-announce j session_id updated.state answers d d' kept)))
              ]
      ]
    ]

pub release_custody_records :
    (session_id : String) (failure : Option Exn) (d : Dispatcher)
    → (release_custody session_id failure d).records ≡ d.records
unfolding release_custody
release_custody_records session_id failure d = refl

pub KeptAt-settle_session :
    (j session_id : String) (state : SessionState) (result : Option OperationResult)
    (failure : Option Exn) (answers : Answers) (d : Dispatcher)
    → KeptAt j d (settle_session session_id state result failure answers d).0
unfolding settle_session
KeptAt-settle_session j session_id state result failure answers d =
    let d₁ = release_custody session_id failure d in
    let released = KeptAt-same j d d₁ (release_custody_records session_id failure d) in
    let d₂ = (transition_locked session_id state (transition_result state result) answers d₁).0 in
    let kept =
      KeptAt-trans j d d₁ d₂ released
        (KeptAt-transition_locked j session_id state (transition_result state result) answers d₁) in
    elim (Result-cases
      (transition_locked session_id state (transition_result state result) answers d₁).1) [
        | inr (e, t) ↦ rw (t, settle_session) kept
        | inl (updated, t) ↦
            rw (t, settle_session) (KeptAt-announce j session_id updated.state answers d d₂ kept)
      ]

pub KeptAt-replace_record :
    (change : SessionRecord → SessionRecord)
    → ((r : SessionRecord) → Follows r (change r))
    → (j session_id : String) (answers : Answers) (d : Dispatcher)
    → KeptAt j d (replace_record change session_id answers d).0
KeptAt-replace_record change same j session_id answers d =
    elim (Result-cases (lookup session_id d.records)) [
      | inr (e, missing) ↦ rw (missing, replace_record) (KeptAt-same j d d refl)
      | inl (r, found) ↦ elim (Result-cases (make_record (change r))) [
        | inr (e, refused) ↦ rw (found, replace_record) (rw refused (KeptAt-same j d d refl))
        | inl (u, made) ↦
            rw (found, replace_record)
              (rw made (
                KeptAt-put_record j session_id r u answers d (lookup-get session_id d r found)
                  (rw ((make_record_sound (change r) u made).0) (same r))))
      ]
    ]

pub KeptAt-worker_done :
    (j session_id : String) (answers : Answers) (d : Dispatcher)
    → KeptAt j d (worker_done session_id answers d).0
unfolding worker_done
KeptAt-worker_done j session_id answers d =
    let d₁ = without_worker session_id d in
    let due = is_paused (get session_id d.records) && cancel_is_set (get session_id d.controls) in
    elim (Bool-cases due) [
      | inr idle ↦ rw (idle, worker_done) (KeptAt-same j d d₁ refl)
      | inl requeued ↦
          let d₂ = (transition_locked session_id SessionState.canceling none answers d₁).0 in
          let kept = KeptAt-transition_locked j session_id SessionState.canceling none answers d₁ in
          elim (Result-cases
            (transition_locked session_id SessionState.canceling none answers d₁).1) [
              | inr (e, t) ↦ rw (requeued, worker_done) (rw t kept)
              | inl (updated, t) ↦
                  rw (requeued, worker_done)
                    (rw t (
                      KeptAt-announce j session_id updated.state answers d
                        (record d₂ { pending = d₂.pending ++ session_id ∷ [] }) kept))
            ]
    ]

pub KeptAt-transit_only :
    (j session_id : String) (state : SessionState) (result : Option OperationResult)
    (answers : Answers) (d : Dispatcher)
    → KeptAt j d (transit_only session_id state result answers d)
unfolding transit_only
KeptAt-transit_only = KeptAt-transition_locked

pub begin_submit_records :
    (kind : String) (is_registered : Bool) (d : Dispatcher)
    → (begin_submit kind is_registered d).0.records ≡ d.records
unfolding begin_submit
begin_submit_records kind is_registered d = ground arith
