-- ===== src/Generation/Plan.antt =====
-- apps/api/src/scheduling/visit-generation/plan.ts: `protectionReasonFor`, `diff`,
-- `planGeneration` and `planIsEmpty`. The two loops of `planGeneration` are recursions on the
-- lists, `compare_required` and `sweep_existing`; a `push` appends.
pub mod Index
pub mod Additions
pub mod Protection
pub mod Matched
pub mod Compared
pub mod Swept
pub mod Buckets
pub mod Settled
mod Examples
use ultrakil_scheduling_syst.Prelude.{
  ℕ, ◌+◌, String, Bool, true, false, not, ◌&&◌, Option, none, some, List, [], ◌∷◌, ◌++◌, ◌==◌,
  ◌=/=◌, if◌then◌else◌, null, has, lookup, insert, nat_eq, string_eq, pair_eq,
}
use ultrakil_scheduling_syst.Domain.{DateOnly, Minute, placement_name, placement_eq}
use ultrakil_scheduling_syst.Generation.Requirement.{RequiredVisit, ExistingVisit}

pub data ProtectionReason : Type 0 where
  locked manually_adjusted has_assignment already_scheduled already_completed cancelled :
      ProtectionReason

-- `PROTECTED_STATUSES[status]`
protected_status : String → Option ProtectionReason
protected_status status =
    if status == "SCHEDULED"
    then some already_scheduled
    else if status == "COMPLETED"
    then some already_completed
    else if status == "CANCELLED"
    then some cancelled
    else none

-- The order of the tests is the source's: a lock outranks an edit, an edit the status.
unfoldable pub protection_reason_for : ExistingVisit → Option ProtectionReason
unfolding protected_status
protection_reason_for visit =
    if visit.is_locked
    then some locked
    else if visit.is_manually_adjusted
    then some manually_adjusted
    else elim (protected_status visit.status) [
      | some reason ↦ some reason
      | none ↦ if visit.has_assignments then some has_assignment else none
    ]

-- `number | string`; a date is reported as itself.
pub data FieldValue : Type 0 where
  number : ℕ → FieldValue
  text : String → FieldValue
  day : DateOnly → FieldValue

pub record Change : Type 0 where
  pub field : String
  pub from : FieldValue
  pub to : FieldValue

pub data WouldHave : Type 0 where
  update remove : WouldHave

pub record PlannedUpdate : Type 0 where
  pub visit_id : String
  pub expected_updated_at : ℕ
  pub required : RequiredVisit
  pub changes : List Change

-- The reason is always `NO_LONGER_REQUIRED`.
pub record PlannedRemoval : Type 0 where
  pub visit_id : String
  pub expected_updated_at : ℕ
  pub service_agreement_id : String
  pub visit_date : DateOnly

pub record ProtectedVisit : Type 0 where
  pub visit_id : String
  pub service_agreement_id : String
  pub visit_date : DateOnly
  pub protection : ProtectionReason
  pub would_have : WouldHave
  pub changes : Option (List Change)

pub record GenerationPlan : Type 0 where
  pub additions : List RequiredVisit
  pub updates : List PlannedUpdate
  pub removals : List PlannedRemoval
  pub protected_visits : List ProtectedVisit
  pub unchanged_count : ℕ

-- `agreement|date|start`
abbrev pub Key : Type 0
Key = String × (DateOnly × Minute)

abbrev pub key_of : String → DateOnly → Minute → Key
key_of agreement date start = (agreement, (date, start))

abbrev pub key_of_required : RequiredVisit → Key
key_of_required want = key_of want.service_agreement_id want.visit_date want.window_start_minute

abbrev pub key_of_existing : ExistingVisit → Key
key_of_existing visit = key_of visit.service_agreement_id visit.visit_date visit.window_start_minute

change_if : Bool → String → FieldValue → FieldValue → List Change
change_if true field from to = record { field = field; from = from; to = to } ∷ []
change_if false field from to = []

unfoldable pub diff : ExistingVisit → RequiredVisit → List Change
unfolding change_if
diff existing required =
    change_if (existing.window_end_minute =/= required.window_end_minute) "windowEndMinute"
      (number existing.window_end_minute) (number required.window_end_minute)
    ++ (change_if (existing.duration_minutes =/= required.duration_minutes) "durationMinutes"
          (number existing.duration_minutes) (number required.duration_minutes)
        ++ (change_if (existing.required_crew_size =/= required.required_crew_size)
              "requiredCrewSize" (number existing.required_crew_size)
              (number required.required_crew_size)
            ++ change_if (existing.placement =/= required.placement) "placement"
                (text (placement_name existing.placement))
                (text (placement_name required.placement))))

-- The day that generation had chosen, reported first, where a protected visit pinned the period.
unfoldable pub with_pinned_day : ExistingVisit → Option DateOnly → List Change → List Change
with_pinned_day found none changes = changes
with_pinned_day found (some chosen) changes =
    if chosen =/= found.visit_date
    then record { field = "visitDate"; from = day found.visit_date; to = day chosen } ∷ changes
    else changes

-- The entries that the two loops push.
abbrev pub update_of : ExistingVisit → RequiredVisit → List Change → PlannedUpdate
update_of found want changes = record {
  visit_id = found.id;
  expected_updated_at = found.updated_at;
  required = want;
  changes = changes;
}

abbrev pub removal_of : ExistingVisit → PlannedRemoval
removal_of visit = record {
  visit_id = visit.id;
  expected_updated_at = visit.updated_at;
  service_agreement_id = visit.service_agreement_id;
  visit_date = visit.visit_date;
}

abbrev pub report_of :
    ExistingVisit → ProtectionReason → WouldHave → Option (List Change) → ProtectedVisit
report_of visit protection would_have changes = record {
  visit_id = visit.id;
  service_agreement_id = visit.service_agreement_id;
  visit_date = visit.visit_date;
  protection = protection;
  would_have = would_have;
  changes = changes;
}

-- What the loop over the requirements carries: the plan so far and the ids that it matched.
pub record Progress : Type 0 where
  pub plan : GenerationPlan
  pub matched_ids : List String

-- A requirement whose visit exists, with its differences and the visit's protection.
unfoldable pub settle_found :
    GenerationPlan → RequiredVisit → ExistingVisit → Option ProtectionReason → GenerationPlan
unfolding diff with_pinned_day
settle_found plan want found none =
    let changes = diff found want in
    if null changes
    then record plan { unchanged_count = plan.unchanged_count + 1 }
    else record plan { updates = plan.updates ++ update_of found want changes ∷ [] }
settle_found plan want found (some protection) =
    let changes = with_pinned_day found want.pinned_from (diff found want) in
    if null changes
    then record plan { unchanged_count = plan.unchanged_count + 1 }
    else record plan {
      protected_visits =
          plan.protected_visits ++ report_of found protection update (some changes) ∷ [];
    }

-- The body of the loop over the requirements.
unfoldable pub compare_step : Option ExistingVisit → Progress → RequiredVisit → Progress
unfolding settle_found
compare_step none progress want = record progress {
  plan = record (progress.plan) { additions = progress.plan.additions ++ want ∷ [] };
}
compare_step (some found) progress want = record {
  plan = settle_found progress.plan want found (protection_reason_for found);
  matched_ids = found.id ∷ progress.matched_ids;
}

-- `existingByKey`: a later visit with the same key replaces an earlier one.
unfoldable pub index_existing :
    List ExistingVisit → List (Key × ExistingVisit) → List (Key × ExistingVisit)
index_existing [] m = m
index_existing (visit ∷ visits) m = index_existing visits (insert (key_of_existing visit) visit m)

unfoldable pub compare_required :
    List (Key × ExistingVisit) → List RequiredVisit → Progress → Progress
unfolding compare_step
compare_required by_key [] progress = progress
compare_required by_key (want ∷ wants) progress =
    compare_required by_key wants
      (compare_step (lookup (key_of_required want) by_key) progress want)

unfoldable pub sweep_one : List String → GenerationPlan → ExistingVisit → GenerationPlan
sweep_one matched plan visit =
    if has visit.id matched then plan else elim (protection_reason_for visit) [
      | some protection ↦ record plan {
        protected_visits = plan.protected_visits ++ report_of visit protection remove none ∷ [];
      }
      | none ↦ record plan { removals = plan.removals ++ removal_of visit ∷ [] }
    ]

-- The loop over the calendar: what is left over is no longer required.
unfoldable pub sweep_existing : List String → List ExistingVisit → GenerationPlan → GenerationPlan
unfolding sweep_one
sweep_existing matched [] plan = plan
sweep_existing matched (visit ∷ visits) plan =
    sweep_existing matched visits (sweep_one matched plan visit)

abbrev pub empty_plan : GenerationPlan
empty_plan = record {
  additions = [];
  updates = [];
  removals = [];
  protected_visits = [];
  unchanged_count = 0;
}

-- The state after the first loop.
abbrev pub compared : List RequiredVisit → List ExistingVisit → Progress
compared required existing =
    compare_required (index_existing existing []) required
      (record { plan = empty_plan; matched_ids = [] })

unfoldable pub plan_generation : List RequiredVisit → List ExistingVisit → GenerationPlan
unfolding index_existing compare_required sweep_existing
plan_generation required existing =
    let progress = compared required existing in
    sweep_existing progress.matched_ids existing progress.plan

-- True when applying the plan would change nothing.
unfoldable pub plan_is_empty : GenerationPlan → Bool
plan_is_empty plan = null plan.additions && (null plan.updates && null plan.removals)
