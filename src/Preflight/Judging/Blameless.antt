-- ===== src/Preflight/Judging/Blameless.antt =====
-- The parts of preflight that never blame the selection (namisync/modules/preflight.py).
use nami_sync.Base.{
  ◌≡◌, refl, Bool, true, false, not, ◌||◌, List, [], ◌∷◌, ◌++◌, ℕ, Option, none, some, ◌==◌,
  contains, string_eq, if◌then◌else◌, arith, Option-cases, inl, inr,
}
use nami_sync.Base.Dict.{get}
use nami_sync.Base.Lists.{any, any-append}
use nami_sync.Models.{FileStat, VolumeId}
use nami_sync.Paths.{Text}
use nami_sync.Planning.{Plan, PlanOperation}
use nami_sync.Preflight.{
  Subject, subject_eq, StatObservation, RootObservation, TrashObservation, ObservedWorld,
  RefusalCode, Refusal, stat_refusals, compare_stats, judge_stat, refuse_if, general,
}
use nami_sync.Preflight.Judging.{
  root_refusals, drift_refusals, trash_refusals, space_refusals, source_refusals, target_refusals,
  prior_refusals, direct_target_subjects, created_directory_keys, parent_refusals,
  all_parent_refusals,
}

-- The refusals that blame the selection itself.
abbrev pub is_selection_code : RefusalCode → Bool
is_selection_code RefusalCode.incomplete_source_scan = true
is_selection_code RefusalCode.incomplete_target_scan = true
is_selection_code RefusalCode.selection_not_closed = true
is_selection_code RefusalCode.operation_blocked = true
is_selection_code RefusalCode.blocked_correspondence = true
is_selection_code RefusalCode.dependency_unavailable = true
is_selection_code _ = false

abbrev pub blames_selection : List Refusal → Bool
blames_selection refusals = any (λ refusal. is_selection_code refusal.code) refusals

pub both_blameless :
    (xs ys : List Refusal)
    → blames_selection xs ≡ false
    → blames_selection ys ≡ false
    → blames_selection (xs ++ ys) ≡ false
both_blameless xs ys x y =
    ground (arith, any-append (λ refusal. is_selection_code refusal.code) xs ys)

pub either_blameless :
    (test : Bool) (xs ys : List Refusal)
    → blames_selection xs ≡ false
    → blames_selection ys ≡ false
    → blames_selection (if test then xs else ys) ≡ false
either_blameless true xs ys x y = x
either_blameless false xs ys x y = y

pub root_blameless :
    (expected : Option VolumeId) (observed : Option RootObservation)
    → blames_selection (root_refusals expected observed) ≡ false
unfolding root_refusals
root_blameless expected observed = ground arith

pub overlap_blameless :
    (overlaps : Bool)
    → blames_selection (refuse_if overlaps (general RefusalCode.roots_overlap)) ≡ false
overlap_blameless true = refl
overlap_blameless false = refl

pub drift_blameless :
    (plan : Plan) (world : ObservedWorld) → blames_selection (drift_refusals plan world) ≡ false
unfolding drift_refusals
drift_blameless plan world = ground arith

pub trash_blameless :
    (trash : Option TrashObservation) → blames_selection (trash_refusals trash) ≡ false
unfolding trash_refusals
trash_blameless trash = ground arith

pub space_blameless :
    (free : Option ℕ) (reclaimable required : ℕ)
    → blames_selection (space_refusals free reclaimable required) ≡ false
unfolding space_refusals
space_blameless free reclaimable required = ground arith

pub compare_blameless :
    (operation : PlanOperation) (subject : Subject) (granularity_ns : ℕ)
    (expected actual : FileStat)
    → blames_selection (compare_stats operation subject granularity_ns expected actual) ≡ false
unfolding compare_stats
compare_blameless operation subject granularity_ns expected actual = ground arith

pub judge_blameless :
    (operation : PlanOperation) (subject : Subject) (source_subject : Bool) (granularity_ns : ℕ)
    (expected actual : Option FileStat)
    → blames_selection (judge_stat operation subject source_subject granularity_ns expected actual)
      ≡ false
judge_blameless operation subject source_subject granularity_ns none none = refl
judge_blameless operation subject source_subject granularity_ns none (some actual) = refl
judge_blameless operation subject true granularity_ns (some expected) none = refl
judge_blameless operation subject false granularity_ns (some expected) none = refl
judge_blameless operation subject source_subject granularity_ns (some expected) (some actual) =
    compare_blameless operation subject granularity_ns expected actual

pub stat_blameless :
    (operation : PlanOperation) (subject : Subject) (observation : Option StatObservation)
    (expected : Option FileStat) (source_subject : Bool) (granularity_ns : ℕ)
    → blames_selection
        (stat_refusals operation subject observation expected source_subject granularity_ns)
      ≡ false
unfolding stat_refusals
stat_blameless operation subject none expected source_subject granularity_ns = refl
stat_blameless operation subject (some observation) expected source_subject granularity_ns =
    ground (
      arith,
      judge_blameless operation subject source_subject granularity_ns expected observation.stat,
    )

pub parent_blameless :
    (upper : ℕ → Text) (created : List Text) (subject : Subject) (rel_path : Text)
    (observation : Option StatObservation)
    → blames_selection (parent_refusals upper created subject rel_path observation) ≡ false
unfolding parent_refusals
parent_blameless upper created subject rel_path observation = ground arith

pub source_blameless :
    (upper : ℕ → Text) (plan : Plan) (world : ObservedWorld) (operation : PlanOperation)
    → blames_selection (source_refusals upper plan world operation) ≡ false
unfolding source_refusals
source_blameless upper plan world operation = elim (Option-cases operation.source_rel_path) [
  | inl h ↦ rw (h, source_refusals) refl
  | inr (path, h) ↦ elim (Option-cases operation.source_expected) [
    | inl e ↦ rw (h, source_refusals) (rw e refl)
    | inr (expected, e) ↦ rw (h, source_refusals) (rw e (stat_blameless operation _ _ _ _ _))
  ]
]

pub target_blameless :
    (upper : ℕ → Text) (plan : Plan) (world : ObservedWorld) (operation : PlanOperation)
    (path : Text) (expected : Option FileStat)
    → blames_selection (target_refusals upper plan world operation path expected) ≡ false
unfolding target_refusals
target_blameless upper plan world operation path expected = stat_blameless operation _ _ _ _ _

pub prior_blameless :
    (upper : ℕ → Text) (plan : Plan) (world : ObservedWorld) (operation : PlanOperation)
    → blames_selection (prior_refusals upper plan world operation) ≡ false
unfolding prior_refusals
prior_blameless upper plan world operation = elim (Option-cases operation.prior_target_rel_path) [
  | inl h ↦ rw (h, prior_refusals) refl
  | inr (path, h) ↦ rw (h, prior_refusals) (target_blameless upper plan world operation path _)
]

pub parents_blameless :
    (upper : ℕ → Text) (plan : Plan) (world : ObservedWorld) (operations : List PlanOperation)
    (paths : List (Subject × Text))
    → blames_selection (all_parent_refusals upper plan world operations paths) ≡ false
unfolding all_parent_refusals
parents_blameless upper plan world operations [] = refl
parents_blameless upper plan world operations ((subject, rel_path) ∷ paths) =
    let skips =
      not (subject.root_id == plan.target_root.root_id)
      || contains (direct_target_subjects upper plan operations) subject in
    let created = created_directory_keys upper operations in
    let found = parent_refusals upper created subject rel_path (get subject world.stats) in
    both_blameless (if skips then [] else found)
      (all_parent_refusals upper plan world operations paths)
      (either_blameless skips [] found refl
        (parent_blameless upper created subject rel_path (get subject world.stats)))
      (parents_blameless upper plan world operations paths)
