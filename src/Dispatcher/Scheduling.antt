-- ===== src/Dispatcher/Scheduling.antt =====
-- One pass of the scheduler's loop over the queue (`Dispatcher._schedule`).
pub mod Admission
use nami_sync.Base.{
  Bool, true, false, not, ◌&&◌, ◌||◌, String, List, [], ◌∷◌, ◌++◌, Option, none, some, Eq, ◌==◌,
  contains, string_eq, if◌then◌else◌,
}
use nami_sync.Base.Dict.{Dict, get}
use nami_sync.Base.Lists.{keep, any}
use nami_sync.Session.{SessionState, state_eq}
use nami_sync.Session.Records.{SessionRecord, ResourceId, resource_eq}
use nami_sync.Dispatcher.{Dispatcher}

-- The loop's variables, with `self._reserved`.
pub record Scan : Type 0 where
  pub selected : List String
  pub waiting_resources : List ResourceId
  pub reserved : List ResourceId

-- `any(resource in self._reserved or resource in waiting_resources ...)`
abbrev pub is_held : List ResourceId → Scan → Bool
is_held resources scan =
    any (λ resource. contains scan.reserved resource || contains scan.waiting_resources resource)
      resources

abbrev select_id : String → Scan → Scan
select_id session_id scan = record scan { selected = scan.selected ++ session_id ∷ [] }

-- A `PENDING` session: it waits, or its resources are reserved.
unfoldable pub visit_pending : String → List ResourceId → Scan → Scan
visit_pending session_id resources scan =
    if is_held resources scan
    then record scan { waiting_resources = resources ++ scan.waiting_resources }
    else record (select_id session_id scan) { reserved = resources ++ scan.reserved }

-- One round of the loop. A session in any other state, or gone, is taken off the queue.
unfoldable pub visit : Dict String SessionRecord → String → Scan → Scan
visit records session_id scan = elim (get session_id records) [
  | none ↦ select_id session_id scan
  | some r ↦
      if r.state == SessionState.pending
      then visit_pending session_id r.resources scan
      else select_id session_id scan
]

unfoldable pub scan_pending : Dict String SessionRecord → List String → Scan → Scan
unfolding visit
scan_pending records [] scan = scan
scan_pending records (session_id ∷ pending) scan =
    scan_pending records pending (visit records session_id scan)

abbrev pub start_scan : Dispatcher → Scan
start_scan d = record { selected = []; waiting_resources = []; reserved = d.reserved }

abbrev has_record : Option SessionRecord → Bool
has_record none = false
has_record (some r) = true

-- `self._workers[session_id] = worker`
abbrev add_worker : String → List String → List String
add_worker session_id workers =
    if contains workers session_id then workers else workers ++ session_id ∷ []

abbrev launch : Dict String SessionRecord → List String → List String → List String
launch records [] workers = workers
launch records (session_id ∷ selected) workers =
    launch records selected
      (if has_record (get session_id records) then add_worker session_id workers else workers)

-- The pass: the selected ids leave the queue, and each that has a record gets a worker.
unfoldable pub schedule : Dispatcher → Dispatcher
unfolding scan_pending
schedule d =
    let scan = scan_pending d.records d.pending (start_scan d) in
    record d {
      pending = keep (λ item. not (contains scan.selected item)) d.pending;
      reserved = scan.reserved;
      workers = launch d.records scan.selected d.workers;
    }
