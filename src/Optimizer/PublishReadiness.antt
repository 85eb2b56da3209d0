-- ===== src/Optimizer/PublishReadiness.antt =====
-- apps/api/src/scheduling/optimizer/publish-readiness.ts: the gates before a publication. Counters
-- are natural numbers, so `visitsScheduled <= 0` is `visits_scheduled ≡ 0`.
use Prim.Native.Char.{code}
use Prim.Native.String
use ultrakil_scheduling_syst.Prelude.{
  ℕ, Bool, true, false, not, ◌&&◌, ◌||◌, Option, none, some, List, [], ◌∷◌, ◌++◌, String,
  if◌then◌else◌, Eq, dec_eqb, dec_eqb_iff, nat_eq, string_eq, ltb, nat_eqb, null, has, add, lookup,
  insert, length, get_or_else, some_of, is_some,
}
use ultrakil_scheduling_syst.Prelude.Text.{join}
use ultrakil_scheduling_syst.Domain.{
  DataProvenance, unknown, source, derived, defaulted, manager_confirmed,
}
pub mod Gates
pub mod Warnings
pub mod Examples

pub data SiteBranchConfidence : Type 0 where
  matched uncertain confirmed : SiteBranchConfidence

pub data SiteBranchSource : Type 0 where
  address_match fallback_default branch_manager_confirmed : SiteBranchSource

pub data ProvenanceWarningCode : Type 0 where
  crew_size_unconfirmed day_rule_unconfirmed duration_unconfirmed hours_unconfirmed
        site_branch_unconfirmed vehicle_branch_unconfirmed :
      ProvenanceWarningCode

abbrev pub provenance_warning_codes : List ProvenanceWarningCode
provenance_warning_codes =
    crew_size_unconfirmed ∷ day_rule_unconfirmed ∷ duration_unconfirmed ∷ hours_unconfirmed
    ∷ site_branch_unconfirmed ∷ vehicle_branch_unconfirmed ∷ []

unfoldable pub ProvenanceWarningCode-discrete : Discrete ProvenanceWarningCode
ProvenanceWarningCode-discrete = hlevel

instance abbrev pub warning_eq : Eq ProvenanceWarningCode
warning_eq = record {
  beq = dec_eqb ProvenanceWarningCode-discrete;
  beq_iff = dec_eqb_iff ProvenanceWarningCode-discrete;
}

unfoldable pub provenance_warning_message : ProvenanceWarningCode → String
provenance_warning_message crew_size_unconfirmed =
    "Crew size was not stated by the source and has not been confirmed by a manager."
provenance_warning_message day_rule_unconfirmed =
    "Allowed service days were derived or defaulted and have not been confirmed by a manager."
provenance_warning_message duration_unconfirmed =
    "Visit duration was not stated by the source and has not been confirmed by a manager."
provenance_warning_message hours_unconfirmed =
    "Opening hours for this visit are not confirmed: either the recorded hours are unconfirmed, or the visible 08:00–17:00 fallback is in use."
provenance_warning_message site_branch_unconfirmed =
    "The service site branch is inferred from source data and needs manager confirmation."
provenance_warning_message vehicle_branch_unconfirmed =
    "An assigned vehicle has no confirmed branch."

pub record ProvenanceWarning : Type 0 where
  pub code : ProvenanceWarningCode
  pub message : String
  pub affected_visit_count : ℕ

-- The scalar markers of one assignment; `vehicle_branch_ids` has one entry for each vehicle.
pub record ProvenanceAssignment : Type 0 where
  pub generated_visit_id : String
  pub window_provenance : DataProvenance
  pub crew_size_provenance : DataProvenance
  pub duration_provenance : DataProvenance
  pub day_rule_provenance : DataProvenance
  pub branch_confidence : SiteBranchConfidence
  pub branch_source : SiteBranchSource
  pub vehicle_branch_ids : List (Option String)

abbrev pub is_confirmed : DataProvenance → Bool
is_confirmed source = true
is_confirmed manager_confirmed = true
is_confirmed _ = false

abbrev pub is_site_branch_confirmed : SiteBranchConfidence → SiteBranchSource → Bool
is_site_branch_confirmed confirmed branch_manager_confirmed = true
is_site_branch_confirmed _ _ = false

abbrev pub Affected : Type 0
Affected = List (ProvenanceWarningCode × List String)

-- `flag`: the visit joins the set of the code.
unfoldable pub flag : Affected → ProvenanceWarningCode → String → Affected
flag affected code visit_id =
    insert code (add visit_id (get_or_else (lookup code affected) [])) affected

abbrev pub flag_if : Bool → ProvenanceWarningCode → String → Affected → Affected
flag_if true code visit_id affected = flag affected code visit_id
flag_if false code visit_id affected = affected

-- What the loop's body asks of an assignment for each code.
abbrev pub is_unconfirmed : ProvenanceAssignment → ProvenanceWarningCode → Bool
is_unconfirmed a hours_unconfirmed = not (is_confirmed a.window_provenance)
is_unconfirmed a crew_size_unconfirmed = not (is_confirmed a.crew_size_provenance)
is_unconfirmed a duration_unconfirmed = not (is_confirmed a.duration_provenance)
is_unconfirmed a day_rule_unconfirmed = not (is_confirmed a.day_rule_provenance)
is_unconfirmed a site_branch_unconfirmed =
    not (is_site_branch_confirmed a.branch_confidence a.branch_source)
is_unconfirmed a vehicle_branch_unconfirmed =
    some_of (λ branch_id. not (is_some branch_id)) a.vehicle_branch_ids

-- The body of the loop: the six tests, in the source's order.
unfoldable pub flag_assignment : Affected → ProvenanceAssignment → Affected
flag_assignment affected a =
    let id : String = a.generated_visit_id in
    flag_if (is_unconfirmed a vehicle_branch_unconfirmed) vehicle_branch_unconfirmed id (
      flag_if (is_unconfirmed a site_branch_unconfirmed) site_branch_unconfirmed id (
        flag_if (is_unconfirmed a day_rule_unconfirmed) day_rule_unconfirmed id (
          flag_if (is_unconfirmed a duration_unconfirmed) duration_unconfirmed id (
            flag_if (is_unconfirmed a crew_size_unconfirmed) crew_size_unconfirmed id
              (flag_if (is_unconfirmed a hours_unconfirmed) hours_unconfirmed id affected)))))

unfoldable pub flag_assignments : Affected → List ProvenanceAssignment → Affected
flag_assignments affected [] = affected
flag_assignments affected (a ∷ assignments) =
    flag_assignments (flag_assignment affected a) assignments

-- The codes that affect a visit, in the order of the list, each with the number of its visits.
unfoldable pub report_codes : Affected → List ProvenanceWarningCode → List ProvenanceWarning
report_codes affected [] = []
report_codes affected (c ∷ codes) =
    let size : ℕ = length (get_or_else (lookup c affected) []) in
    let rest : List ProvenanceWarning = report_codes affected codes in
    if ltb 0 size
    then record { code = c; message = provenance_warning_message c; affected_visit_count = size }
      ∷ rest
    else rest

unfoldable pub provenance_warnings : List ProvenanceAssignment → List ProvenanceWarning
provenance_warnings assignments =
    report_codes (flag_assignments [] assignments) provenance_warning_codes

pub data ReadinessState : Type 0 where
  ready blocked acknowledgement_required : ReadinessState

pub data ReadinessCode : Type 0 where
  zero_results partial_results source_data_unconfirmed : ReadinessCode

pub record PublishReadiness : Type 0 where
  pub state : ReadinessState
  pub code : Option ReadinessCode
  pub message : Option String
  pub requires_partial_acknowledgement : Bool
  pub requires_provenance_acknowledgement : Bool
  pub provenance_warnings : List ProvenanceWarning

pub record RunCounters : Type 0 where
  pub visits_considered : ℕ
  pub visits_scheduled : ℕ
  pub visits_unassigned : ℕ

abbrev pub partial_publish_message : String
partial_publish_message =
    "This run left visits unassigned. A manager acknowledgement and reason are required to publish the partial schedule."

abbrev pub unconfirmed_source_publish_message : String
unconfirmed_source_publish_message =
    "This run rests on source data that is still unconfirmed. A manager acknowledgement and reason are required before publishing it as dispatch truth."

abbrev pub reason_message : String
reason_message = "A reason for publishing is required and must not be empty."

abbrev pub say_if : Bool → String → List String
say_if true text = text ∷ []
say_if false text = []

unfoldable pub publish_readiness : RunCounters → List ProvenanceWarning → PublishReadiness
publish_readiness counters warnings =
    let requires_partial : Bool =
      ltb 0 counters.visits_unassigned
      || ltb counters.visits_scheduled counters.visits_considered in
    let requires_provenance : Bool = not (null warnings) in
    if nat_eqb counters.visits_scheduled 0
    then record {
      state = blocked;
      code = some zero_results;
      message = some "This run produced no dispatchable assignments and cannot be published.";
      requires_partial_acknowledgement = false;
      requires_provenance_acknowledgement = false;
      provenance_warnings = warnings;
    }
    else if not requires_partial && not requires_provenance
    then record {
      state = ready;
      code = none;
      message = none;
      requires_partial_acknowledgement = false;
      requires_provenance_acknowledgement = false;
      provenance_warnings = [];
    }
    else record {
      state = acknowledgement_required;
      code = some (if requires_partial then partial_results else source_data_unconfirmed);
      message = some (
          join " " (
            say_if requires_partial partial_publish_message
            ++ say_if requires_provenance unconfirmed_source_publish_message));
      requires_partial_acknowledgement = requires_partial;
      requires_provenance_acknowledgement = requires_provenance;
      provenance_warnings = warnings;
    }

-- The white space and line ends that `trim` takes away.
abbrev white_space : List ℕ
white_space =
    9 ∷ 10 ∷ 11 ∷ 12 ∷ 13 ∷ 32 ∷ 160 ∷ 5760 ∷ 8192 ∷ 8193 ∷ 8194 ∷ 8195 ∷ 8196 ∷ 8197 ∷ 8198 ∷ 8199
    ∷ 8200 ∷ 8201 ∷ 8202 ∷ 8232 ∷ 8233 ∷ 8239 ∷ 8287 ∷ 12288 ∷ 65279 ∷ []

-- `!text.trim()`
unfoldable pub is_blank : String → Bool
is_blank String.[] = true
is_blank (String.◌∷◌ c s) = has (code c) white_space && is_blank s

abbrev pub lacks_reason : Option String → Bool
lacks_reason none = true
lacks_reason (some reason) = is_blank reason

pub record Acknowledgement : Type 0 where
  pub acknowledge_partial : Bool
  pub acknowledge_provenance : Bool
  pub reason : Option String

unfoldable pub outstanding : PublishReadiness → Acknowledgement → List String
outstanding readiness given =
    say_if (readiness.requires_partial_acknowledgement && not given.acknowledge_partial)
      partial_publish_message
    ++ say_if (readiness.requires_provenance_acknowledgement && not given.acknowledge_provenance)
        unconfirmed_source_publish_message
    ++ say_if
        ((readiness.requires_partial_acknowledgement
            || readiness.requires_provenance_acknowledgement)
          && lacks_reason given.reason)
        reason_message

unfoldable pub missing_publish_acknowledgement : PublishReadiness → Acknowledgement → Option String
missing_publish_acknowledgement readiness given =
    if null (outstanding readiness given)
    then none
    else some (join " " (outstanding readiness given))
