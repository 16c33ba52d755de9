-- ===== src/Dispatcher/Following.antt =====
-- Whatever the threads do, a session moves along the lifecycle and stays the session it was
-- (namisync/dispatcher/dispatcher.py).
use nami_sync.Base.{
  ◌≡◌, refl, sym, ◌∙◌, ap, String, Option, some, ◌==◌, ==_sound, string_eq, ok, arith, Bool-cases,
  Result-cases, inl, inr,
}
use mathlib.Core.Option.{some-injective}
use nami_sync.Base.Dict.{get, put, get-put}
use nami_sync.Evidence.{Datetime}
use nami_sync.Session.{SessionState}
use nami_sync.Session.Lifecycle.{Legal, Reaches, here, step}
use nami_sync.Session.Results.{OperationResult}
use nami_sync.Session.Records.{SessionRecord, make_record_sound}
use nami_sync.Dispatcher.{
  Dispatcher, Answers, transition_locked, transitioned, in_state, announce, put_record, lookup,
}

Reaches-trans : {s t u : SessionState} → Reaches s t → Reaches t u → Reaches s u
Reaches-trans here q = q
Reaches-trans (step l p) q = step l (Reaches-trans p q)

-- The later record of a session: a state that the earlier one reaches, and the same identity.
pub record Follows (r r' : SessionRecord) : Type 0 where
  pub reaches : Reaches r.state r'.state
  pub same_id : r'.session_id ≡ r.session_id
  pub same_resources : r'.resources ≡ r.resources
  pub same_support : r'.supports_pause ≡ r.supports_pause
  pub same_order : r'.admission_order ≡ r.admission_order

pub Follows-refl : (r : SessionRecord) → Follows r r
Follows-refl r = record {
  reaches = here;
  same_id = refl;
  same_resources = refl;
  same_support = refl;
  same_order = refl;
}

pub Follows-trans : (r r' r'' : SessionRecord) → Follows r r' → Follows r' r'' → Follows r r''
Follows-trans r r' r'' f g = record {
  reaches = Reaches-trans f.reaches g.reaches;
  same_id = g.same_id ∙ f.same_id;
  same_resources = g.same_resources ∙ f.same_resources;
  same_support = g.same_support ∙ f.same_support;
  same_order = g.same_order ∙ f.same_order;
}

-- The session is still there, with a record that follows the one it had.
abbrev pub KeptAt : String → Dispatcher → Dispatcher → Type 0
KeptAt j d d' =
    (r : SessionRecord)
    → get j d.records ≡ some r
    → (r' : SessionRecord) × (get j d'.records ≡ some r') × Follows r r'

pub KeptAt-same : (j : String) (d d' : Dispatcher) → d'.records ≡ d.records → KeptAt j d d'
KeptAt-same j d d' same r h = (r, ap (get j) same ∙ h, Follows-refl r)

pub KeptAt-trans :
    (j : String) (d d' d'' : Dispatcher) → KeptAt j d d' → KeptAt j d' d'' → KeptAt j d d''
KeptAt-trans j d d' d'' f g r h =
    let (r', h', p) = f r h in let (r'', h'', q) = g r' h' in (r'', h'', Follows-trans r r' r'' p q)

pub put_record_records :
    (session_id : String) (updated : SessionRecord) (answers : Answers) (d : Dispatcher)
    → (put_record session_id updated answers d).records ≡ put session_id updated d.records
put_record_records session_id updated answers d = ground arith

-- A record that follows the one in the table is put in its place.
pub KeptAt-put_record :
    (j session_id : String) (r updated : SessionRecord) (answers : Answers) (d : Dispatcher)
    → get session_id d.records ≡ some r
    → Follows r updated
    → KeptAt j d (put_record session_id updated answers d)
KeptAt-put_record j session_id r updated answers d h f s hs = elim (Bool-cases (j == session_id)) [
  | inl same ↦
      let it : s ≡ r =
        some-injective s r (sym hs ∙ ap (λ k. get k d.records) (==_sound j session_id same) ∙ h) in
      (
        updated,
        ap (get j) (put_record_records session_id updated answers d)
            ∙ get-put j session_id updated d.records
            ∙ rw same refl,
        rw it f,
      )
  | inr other ↦ (
    s,
    ap (get j) (put_record_records session_id updated answers d)
        ∙ get-put j session_id updated d.records
        ∙ rw other hs,
    Follows-refl s,
  )
]

transitioned-eq :
    (state : SessionState) (result : Option OperationResult) (now : Datetime)
    (r updated : SessionRecord)
    → transitioned state result now r ≡ ok updated
    → Legal r.state state × (updated ≡ in_state state result now r)
unfolding transitioned
transitioned-eq state result now r updated h =
    ground (arith, make_record_sound (in_state state result now r) updated)

-- What a transition makes of a record follows it.
transitioned-Follows :
    (state : SessionState) (result : Option OperationResult) (now : Datetime)
    (r updated : SessionRecord)
    → transitioned state result now r ≡ ok updated
    → Follows r updated
transitioned-Follows state result now r updated h =
    let (legal, is) = transitioned-eq state result now r updated h in
    rw is (record {
      reaches = step legal here;
      same_id = refl;
      same_resources = refl;
      same_support = refl;
      same_order = refl;
    })

pub lookup-get :
    (session_id : String) (d : Dispatcher) (r : SessionRecord)
    → lookup session_id d.records ≡ ok r
    → get session_id d.records ≡ some r
lookup-get session_id d r h = ground arith

pub KeptAt-transition_locked :
    (j session_id : String) (state : SessionState) (result : Option OperationResult)
    (answers : Answers) (d : Dispatcher)
    → KeptAt j d (transition_locked session_id state result answers d).0
unfolding transition_locked
KeptAt-transition_locked j session_id state result answers d =
    elim (Result-cases (lookup session_id d.records)) [
      | inr (e, missing) ↦ rw (missing, transition_locked) (KeptAt-same j d d refl)
      | inl (r, found) ↦ elim (Result-cases (transitioned state result answers.now r)) [
        | inr (e, refused) ↦ rw (found, transition_locked) (rw refused (KeptAt-same j d d refl))
        | inl (u, made) ↦
            rw (found, transition_locked)
              (rw made (
                KeptAt-put_record j session_id r u answers d (lookup-get session_id d r found)
                  (transitioned-Follows state result answers.now r u made)))
      ]
    ]

pub announce_records :
    (session_id : String) (state : SessionState) (answers : Answers) (d : Dispatcher)
    → (announce session_id state answers d).0.records ≡ d.records
unfolding announce
announce_records session_id state answers d = ground arith
