-- ===== src/Optimizer/PublishReadiness/Examples.antt =====
-- A partial run on data that nobody has confirmed.
use ultrakil_scheduling_syst.Prelude.{
  ◌↔◌, In, filter, String, ◌<◌, ◌≡◌, ◌≢◌, refl, ◌↔◌, true, none, some, List, [], ◌∷◌, String,
  if◌then◌else◌, ltb, ◌==◌, length, arith, has, dedup, dedup_from, add,
}
use ultrakil_scheduling_syst.Prelude.Text.{join}
use ultrakil_scheduling_syst.Domain.{source, defaulted}
use ultrakil_scheduling_syst.Optimizer.PublishReadiness.{
  ProvenanceAssignment, ProvenanceWarning, warning_eq, hours_unconfirmed, matched, address_match,
  provenance_warnings, provenance_warning_message, ready, blocked, RunCounters, Acknowledgement,
  publish_readiness, missing_publish_acknowledgement, outstanding, reason_message, is_blank,
}
use ultrakil_scheduling_syst.Optimizer.PublishReadiness.Gates.{
  IsPartial, IsAcknowledged, missing_publish_acknowledgement-IsAcknowledged,
  publish_readiness-state,
}
use ultrakil_scheduling_syst.Optimizer.PublishReadiness.Warnings.{
  IsAffected, affected_visits, provenance_warnings_lem,
}

abbrev counters : RunCounters
counters = record { visits_considered = 3; visits_scheduled = 2; visits_unassigned = 1 }

abbrev warnings : List ProvenanceWarning
warnings = record { code = hours_unconfirmed; message = "hours"; affected_visit_count = 2 } ∷ []

abbrev blank : Acknowledgement
blank = record { acknowledge_partial = true; acknowledge_provenance = true; reason = some "  " }

test_blank :
    missing_publish_acknowledgement (publish_readiness counters warnings) blank
    ≡ some reason_message
unfolding missing_publish_acknowledgement outstanding publish_readiness is_blank has join
test_blank = refl

missing_publish_acknowledgement-IsAcknowledged_example :
    (missing_publish_acknowledgement (publish_readiness counters warnings) blank ≡ none)
    ↔ IsAcknowledged (IsPartial counters) (warnings ≢ []) blank
missing_publish_acknowledgement-IsAcknowledged_example =
    missing_publish_acknowledgement-IsAcknowledged counters warnings blank (omega arith)

publish_readiness-state_example :
    (((publish_readiness counters warnings).state ≡ blocked) ↔ (counters.visits_scheduled ≡ 0))
    × (((publish_readiness counters warnings).state ≡ ready)
        ↔ ((0 < 2) × (¬ IsPartial counters) × (warnings ≡ [])))
publish_readiness-state_example = publish_readiness-state counters warnings

abbrev assignment : String → ProvenanceAssignment
assignment visit = record {
  generated_visit_id = visit;
  window_provenance = defaulted;
  crew_size_provenance = source;
  duration_provenance = source;
  day_rule_provenance = source;
  branch_confidence = matched;
  branch_source = address_match;
  vehicle_branch_ids = none ∷ [];
}

abbrev assignments : List ProvenanceAssignment
assignments = assignment "a" ∷ assignment "b" ∷ assignment "a" ∷ []

test_affected : affected_visits assignments hours_unconfirmed ≡ "a" ∷ "b" ∷ []
unfolding dedup dedup_from add has
test_affected = refl

provenance_warnings_lem_example :
    (filter (λ w. w.code == hours_unconfirmed) (provenance_warnings assignments) ≡ (
      if ltb 0 (length (affected_visits assignments hours_unconfirmed))
      then record {
        code = hours_unconfirmed;
        message = provenance_warning_message hours_unconfirmed;
        affected_visit_count = length (affected_visits assignments hours_unconfirmed);
      }
        ∷ []
      else []))
    × ((id : String)
        → In id (affected_visits assignments hours_unconfirmed)
          ↔ IsAffected assignments hours_unconfirmed id)
provenance_warnings_lem_example = provenance_warnings_lem assignments hours_unconfirmed
