-- ===== src/Dispatcher/Scheduling/Admission.antt =====
-- Who is admitted: exclusion and order of the scheduler's pass (`Dispatcher._schedule`).
use nami_sync.Base.{
  ◌≡◌, refl, Bool, true, not, ◌||◌, String, List, [], ◌∷◌, ◌++◌, Option, none, some, ◌==◌, contains,
  ==_refl, string_eq, if◌then◌else◌, arith, Bool-cases, Option-cases, inl, inr,
}
use nami_sync.Base.Dict.{Dict, get}
use nami_sync.Base.Lists.{any}
use nami_sync.Session.{SessionState, state_eq}
use nami_sync.Session.Records.{SessionRecord, ResourceId, resource_eq}
use nami_sync.Dispatcher.{Dispatcher}
use nami_sync.Dispatcher.Scheduling.{Scan, is_held, visit, visit_pending, scan_pending, start_scan}

-- What the pending sessions among `queue` ask for, admitted or not.
abbrev pub asked_by : Option SessionRecord → List ResourceId
asked_by none = []
asked_by (some r) = if r.state == SessionState.pending then r.resources else []

abbrev pub asked_in : Dict String SessionRecord → List String → List ResourceId
asked_in records [] = []
asked_in records (session_id ∷ queue) = asked_by (get session_id records) ++ asked_in records queue

-- Two lists of resources have no member in common.
abbrev pub are_disjoint : List ResourceId → List ResourceId → Bool
are_disjoint xs ys = not (any (contains ys) xs)

-- The resources that a scan has met so far, reserved or waited for.
abbrev is_met : Scan → ResourceId → Bool
is_met scan x = contains scan.reserved x || contains scan.waiting_resources x

contains-append :
    (xs ys : List ResourceId) (x : ResourceId)
    → contains (xs ++ ys) x ≡ (contains xs x || contains ys x)
contains-append [] ys x = refl
contains-append (y ∷ xs) ys x = ground (arith, contains-append xs ys x)

any-same :
    (p q : ResourceId → Bool)
    → ((x : ResourceId) → p x ≡ q x)
    → (xs : List ResourceId) → any p xs ≡ any q xs
any-same p q same [] = refl
any-same p q same (x ∷ xs) = rw (same x, any-same p q same xs) refl

visit_pending_met :
    (session_id : String) (resources : List ResourceId) (scan : Scan) (x : ResourceId)
    → is_met (visit_pending session_id resources scan) x ≡ (contains resources x || is_met scan x)
unfolding visit_pending
visit_pending_met session_id resources scan x = ground (
  arith,
  contains-append resources scan.reserved x,
  contains-append resources scan.waiting_resources x,
)

-- A round of the loop has met what it had met, and what its session asks for.
visit_met :
    (records : Dict String SessionRecord) (session_id : String) (scan : Scan) (x : ResourceId)
    → is_met (visit records session_id scan) x
      ≡ (contains (asked_by (get session_id records)) x || is_met scan x)
unfolding visit
visit_met records session_id scan x = elim (Option-cases (get session_id records)) [
  | inl h ↦ rw (h, visit) refl
  | inr (r, h) ↦ elim (Bool-cases (r.state == SessionState.pending)) [
    | inl p ↦ rw (h, visit) (rw p (visit_pending_met session_id r.resources scan x))
    | inr p ↦ rw (h, visit) (rw p refl)
  ]
]

scan_pending_met :
    (records : Dict String SessionRecord) (queue : List String) (scan : Scan) (x : ResourceId)
    → is_met (scan_pending records queue scan) x
      ≡ (contains (asked_in records queue) x || is_met scan x)
unfolding scan_pending
scan_pending_met records [] scan x = refl
scan_pending_met records (session_id ∷ queue) scan x = ground (
  arith,
  scan_pending_met records queue (visit records session_id scan) x,
  visit_met records session_id scan x,
  contains-append (asked_by (get session_id records)) (asked_in records queue) x,
)

-- Who is held is who shares a resource with what the scan has met.
is_held_met :
    (resources : List ResourceId) (scan : Scan) (met : List ResourceId)
    → ((x : ResourceId) → is_met scan x ≡ contains met x)
    → is_held resources scan ≡ not (are_disjoint resources met)
is_held_met resources scan met same =
    ground (arith, any-same (is_met scan) (contains met) same resources)

-- The scheduler's loop, at any place of the queue: a pending session is selected exactly if its
-- resources are disjoint from what was reserved before the pass and from what every pending
-- session before it in the queue asks for, whether that one was selected or waits.
pub visit_admits :
    (d : Dispatcher) (before : List String) (session_id : String) (r : SessionRecord)
    → get session_id d.records ≡ some r
    → r.state ≡ SessionState.pending
    → let scan = scan_pending d.records before (start_scan d) in
      (visit d.records session_id scan).selected ≡ (
        if are_disjoint r.resources (asked_in d.records before ++ d.reserved)
        then scan.selected ++ session_id ∷ []
        else scan.selected)
unfolding visit visit_pending
visit_admits d before session_id r h p =
    let scan = scan_pending d.records before (start_scan d) in
    let met = asked_in d.records before ++ d.reserved in
    let is_pending : (r.state == SessionState.pending) ≡ true =
      rw p (==_refl SessionState.pending) in
    let held : is_held r.resources scan ≡ not (are_disjoint r.resources met) =
      is_held_met r.resources scan met (λ x. ground (
        arith,
        scan_pending_met d.records before (start_scan d) x,
        contains-append (asked_in d.records before) d.reserved x,
      )) in
    rw (h, visit) (rw is_pending (rw (held, visit_pending) (ground arith)))
