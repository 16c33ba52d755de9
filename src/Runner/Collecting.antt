-- ===== src/Runner/Collecting.antt =====
-- What the runner collects while the workflow runs: its log, its items and its last progress.
use nami_sync.Base.{
  ◌≡◌, refl, List, [], ◌∷◌, ◌++◌, Option, none, some, ℕ, Result, ok, err, Result-cases, inl, inr,
  arith,
}
use mathlib.Core.List.{append_assoc, append-nil}
use nami_sync.Base.Lists.{All, All-append}
use nami_sync.Session.{Exn}
use nami_sync.Session.Results.{Item, IsResult}
use nami_sync.Events.{EventBody, Progress, make_progress}
use nami_sync.Runner.{
  Work, Run, Effect, Ending, emitted, returned, observed_emit, perform, as_items, next_progress,
}

-- A `Progress` that its constructor let through.
abbrev pub IsProgress : Progress → Type 0
IsProgress p = make_progress p ≡ ok p

abbrev pub IsConstructed : EventBody → Type 0
IsConstructed (EventBody.progress p) = IsProgress p
IsConstructed _ = Unit

-- A workflow whose bodies and results come from their constructors.
abbrev pub IsTyped : Work → Type 0
IsTyped (Work.return r) = IsResult r
IsTyped Work.return_other = Unit
IsTyped (Work.raise e) = Unit
IsTyped (Work.emit body rest) =
    IsConstructed body × ((o : Result Exn (Unit {0})) → IsTyped (rest o))
IsTyped (Work.checkpoint rest) = (o : Result Exn (Unit {0})) → IsTyped (rest o)

-- An event of the workflow that is not the terminal one.
abbrev pub IsWorkEffect : Effect → Type 0
IsWorkEffect (emitted (EventBody.terminal r)) = ⊥
IsWorkEffect (emitted _) = Unit
IsWorkEffect _ = ⊥

abbrev pub items_of : List Effect → List Item
items_of [] = []
items_of (emitted body ∷ log) = as_items body ++ items_of log
items_of (_ ∷ log) = items_of log

abbrev pub IsLatest : Option Progress → Type 0
IsLatest none = Unit
IsLatest (some p) = IsProgress p

pub record IsCollected (items : List Item) (run : Run) : Type 0 where
  pub plain : All IsWorkEffect run.log
  pub gathered : run.items ≡ items ++ items_of run.log
  pub latest : IsLatest run.latest_progress

items_of-append : (xs ys : List Effect) → items_of (xs ++ ys) ≡ items_of xs ++ items_of ys
items_of-append [] ys = refl
items_of-append (emitted body ∷ xs) ys = simp (items_of-append xs ys, append_assoc)
items_of-append (Effect.settled s r ∷ xs) ys = items_of-append xs ys
items_of-append (Effect.published r ∷ xs) ys = items_of-append xs ys

observed_emit_log :
    (body : EventBody) (run run' : Run)
    → observed_emit body run ≡ ok run'
    → (run'.log ≡ run.log ++ emitted body ∷ [])
      × (run'.items ≡ run.items ++ as_items body)
      × IsWorkEffect (emitted body)
unfolding observed_emit
observed_emit_log body run run' h = ground arith

next_progress-IsLatest :
    (body : EventBody) (latest : Option Progress)
    → IsConstructed body
    → IsLatest latest
    → IsLatest (next_progress body latest)
next_progress-IsLatest (EventBody.progress p) latest c l = c
next_progress-IsLatest _ latest c l = l

observed_emit_latest :
    (body : EventBody) (run run' : Run)
    → observed_emit body run ≡ ok run'
    → run'.latest_progress ≡ next_progress body run.latest_progress
unfolding observed_emit
observed_emit_latest body run run' h = ground arith

observed_emit-IsCollected :
    (items : List Item) (body : EventBody) (run run' : Run)
    → IsConstructed body
    → observed_emit body run ≡ ok run'
    → IsCollected items run
    → IsCollected items run'
observed_emit-IsCollected items body run run' c h v =
    let (log, gathered, plain) = observed_emit_log body run run' h in
    record {
      plain = rw log (All-append IsWorkEffect run.log _ v.plain (plain, tt));
      gathered = rw (log, gathered, v.gathered, items_of-append) (simp (append_assoc, append-nil));
      latest = rw (observed_emit_latest body run run' h) (next_progress-IsLatest body _ c v.latest);
    }

pub perform-IsCollected :
    (items : List Item) (work : Work) (signals : ℕ → Result Exn (Unit {0})) (run : Run)
    → IsTyped work
    → IsCollected items run
    → IsCollected items (perform work signals run).0
unfolding perform
perform-IsCollected items (Work.return r) signals run t v = v
perform-IsCollected items Work.return_other signals run t v = v
perform-IsCollected items (Work.raise e) signals run t v = v
perform-IsCollected items (Work.emit body rest) signals run t v =
    elim (Result-cases (observed_emit body run)) [
      | inl (run', h) ↦
          rw (h, perform)
            (perform-IsCollected items (rest (ok tt)) signals run' (t.1 (ok tt))
              (observed_emit-IsCollected items body run run' t.0 h v))
      | inr (e, h) ↦
          rw (h, perform) (perform-IsCollected items (rest (err e)) signals run (t.1 (err e)) v)
    ]
perform-IsCollected items (Work.checkpoint rest) signals run t v =
    perform-IsCollected items (rest (signals run.checks)) signals _ (t (signals run.checks))
      (record { plain = v.plain; gathered = v.gathered; latest = v.latest })

abbrev pub IsEnding : Ending → Type 0
IsEnding (returned r) = IsResult r
IsEnding _ = Unit

pub perform-IsEnding :
    (work : Work) (signals : ℕ → Result Exn (Unit {0})) (run : Run)
    → IsTyped work
    → IsEnding (perform work signals run).1
unfolding perform
perform-IsEnding (Work.return r) signals run t = t
perform-IsEnding Work.return_other signals run t = tt
perform-IsEnding (Work.raise e) signals run t = tt
perform-IsEnding (Work.emit body rest) signals run t =
    elim (Result-cases (observed_emit body run)) [
      | inl (run', h) ↦ rw (h, perform) (perform-IsEnding (rest (ok tt)) signals run' (t.1 (ok tt)))
      | inr (e, h) ↦ rw (h, perform) (perform-IsEnding (rest (err e)) signals run (t.1 (err e)))
    ]
perform-IsEnding (Work.checkpoint rest) signals run t =
    perform-IsEnding (rest (signals run.checks)) signals _ (t (signals run.checks))
