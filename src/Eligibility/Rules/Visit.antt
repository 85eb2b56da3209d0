-- ===== src/Eligibility/Rules/Visit.antt =====
-- apps/api/src/scheduling/eligibility/rules.ts: the blocks on the visit, its lock and the time.
use ultrakil_scheduling_syst.Prelude.{
  ℕ, Bool, true, false, ◌&&◌, ◌||◌, Option, none, some, List, [], ◌∷◌, ◌++◌, String, if◌then◌else◌,
  ◌==◌, ◌=/=◌, string_eq,
}
use ultrakil_scheduling_syst.Prelude.Text.{concat, show}
use ultrakil_scheduling_syst.Prelude.Int.{ℤ, pos, negsuc, ◌-ℤ◌, ltb_ℤ, leb_ℤ, eqb_ℤ}
use ultrakil_scheduling_syst.Config.{default_different_site_travel_buffer_minutes}
use ultrakil_scheduling_syst.Eligibility.Conflicts.{
  Conflict, ConflictCode, visit_not_schedulable, assignment_locked, window_too_short,
  outside_service_hours, ConflictResources, about,
}
use ultrakil_scheduling_syst.Eligibility.Facts.{VisitFacts, BusyPeriod, ExistingLock}
use ultrakil_scheduling_syst.Eligibility.Messages.{format_minute, lower}

-- One pushed conflict under a condition.
abbrev pub when : Bool → Conflict → List Conflict
when true conflict = conflict ∷ []
when false conflict = []

-- A text that is there and is not empty.
abbrev pub is_truthy : Option String → Bool
is_truthy none = false
is_truthy (some s) = s =/= ""

abbrev pub conflict_of : ConflictCode → String → String → ConflictResources → Conflict
conflict_of code message remediation resources = record {
  code = code;
  message = message;
  remediation = remediation;
  resources = resources;
}

-- A number of minutes in a template.
unfoldable pub show_ℤ : ℤ → String
show_ℤ (pos n) = show n
show_ℤ (negsuc n) = concat ("-" ∷ show (ℕ.suc n) ∷ [])

-- Touching is not overlapping.
abbrev pub overlaps : ℤ → ℤ → ℤ → ℤ → Bool
overlaps a_start a_end b_start b_end = ltb_ℤ a_start b_end && ltb_ℤ b_start a_end

unfoldable pub has_insufficient_travel_gap : ℤ → ℤ → String → BusyPeriod → Bool
has_insufficient_travel_gap start end service_site_id period =
    if period.service_site_id == service_site_id
      || overlaps start end period.start_minute period.end_minute
    then false
    else ltb_ℤ
        (if leb_ℤ period.end_minute start
          then start -ℤ period.end_minute
          else period.start_minute -ℤ end)
        (pos default_different_site_travel_buffer_minutes)

unfoldable pub visit_rules : VisitFacts → List Conflict
visit_rules visit = when (visit.status == "COMPLETED" || visit.status == "CANCELLED") (
    conflict_of visit_not_schedulable
      (concat (
        "This visit is "
        ∷ lower visit.status
        ∷ " and is a record of what happened, so it cannot be staffed."
        ∷ []))
      "Generate a new visit if the work needs doing again." (about visit.id))

unfoldable pub lock_rules : VisitFacts → Option ExistingLock → List Conflict
lock_rules visit none = []
lock_rules visit (some lock) =
    conflict_of assignment_locked
      (concat (
        "A manager has pinned the crew for this visit"
        ∷ because lock.reason
        ∷ ", so it will not be reassigned."
        ∷ []))
      "Release the lock on the dispatch board before changing this crew."
      (record (about visit.id) { assignment_ids = some (lock.assignment_id ∷ []) })
    ∷ []
  where
    because : Option String → String
    because none = ""
    because (some reason) = if reason == "" then "" else concat (" — \"" ∷ reason ∷ "\"" ∷ [])

-- The booking's length, and the window that it stands in.
unfoldable pub time_rules : VisitFacts → ℤ → ℤ → List Conflict
time_rules visit start end =
    when (ltb_ℤ (end -ℤ start) (pos visit.duration_minutes)) (
      conflict_of window_too_short
        (if ltb_ℤ end start
          then concat (
              "This crew is booked to finish at "
              ∷ format_minute end
              ∷ ", before it starts at "
              ∷ format_minute start
              ∷ "."
              ∷ [])
          else if eqb_ℤ end start
          then concat (
              "This crew is booked to start and finish at the same moment, "
              ∷ format_minute start
              ∷ "."
              ∷ [])
          else concat (
              "The crew is booked for "
              ∷ show_ℤ (end -ℤ start)
              ∷ " minutes but the job takes "
              ∷ show visit.duration_minutes
              ∷ "."
              ∷ []))
        (if leb_ℤ end start
          then concat (
              "Give the crew a finish time after "
              ∷ format_minute start
              ∷ ", leaving at least "
              ∷ show visit.duration_minutes
              ∷ " minutes for the job."
              ∷ [])
          else concat (
              "Book at least "
              ∷ show visit.duration_minutes
              ∷ " minutes, or shorten the job on the agreement."
              ∷ []))
        (about visit.id))
    ++ when (ltb_ℤ start (pos visit.window_start_minute) || ltb_ℤ (pos visit.window_end_minute) end)
        (conflict_of outside_service_hours
          (concat (
            visit.customer_name
            ∷ " accepts visits between "
            ∷ format_minute (pos visit.window_start_minute)
            ∷ " and "
            ∷ format_minute (pos visit.window_end_minute)
            ∷ " at "
            ∷ visit.site_name
            ∷ ", but this crew is booked "
            ∷ format_minute start
            ∷ " to "
            ∷ format_minute end
            ∷ "."
            ∷ []))
          "Move the crew inside the site’s hours, or widen the visit window."
          (record (about visit.id) { service_site_id = some visit.service_site_id }))
