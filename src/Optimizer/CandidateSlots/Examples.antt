-- ===== src/Optimizer/CandidateSlots/Examples.antt =====
-- A weekly visit of 90 minutes, seen from Monday 25 May to Sunday 31 May 2026.
use ultrakil_scheduling_syst.Prelude.{
  ℕ, Bool, ◌≡◌, refl, ◌↔◌, none, some, [], ◌∷◌, Any, arith, has, group_onto, push_under, lookup,
  insert, true, false,
}
use ultrakil_scheduling_syst.Prelude.Int.{◌+ℤ◌, ◌-ℤ◌}
use ultrakil_scheduling_syst.Prelude.Sort.{sort_by, insert_sorted}
use ultrakil_scheduling_syst.Domain.{
  DateOnly, Weekday, Weekday-discrete, monday, wednesday, friday, week,
}
use ultrakil_scheduling_syst.Catalog.Periods.{
  floor_div, ◌*ℤ◌, utc_day, weekday_of, start_of_iso_week, round_to_weeks, period_index_of,
  period_bounds_of,
}
use ultrakil_scheduling_syst.Catalog.Dates.{days_from, dates_between}
use ultrakil_scheduling_syst.Catalog.Windows.{
  SiteWindow, narrowed, narrowed_windows, effective_windows, recorded_windows,
}
use ultrakil_scheduling_syst.Optimizer.CandidateSlots.{
  CandidateSlot, SlotInput, period_of, first_day, last_day, day_windows, slots_of, slots_on,
  slots_over, build_candidate_slots, DayRuleKind, split_day_rules,
}
use ultrakil_scheduling_syst.Optimizer.CandidateSlots.Legal.{
  Offers, IsLegalStart, build_candidate_slots-IsLegalStart,
}

abbrev hours : Weekday → ℕ → ℕ → SiteWindow
hours weekday start end = record {
  weekday = weekday;
  window = record { start_minute = start; end_minute = end; provenance = none };
}

-- Open on Monday morning, on Wednesday afternoon and on Friday for an hour; service from 10:00 to
-- 16:00.
abbrev input : SlotInput
input = record {
  visit_date = 740066;
  agreement_start_date = 740059;
  agreement_end_date = none;
  frequency_unit = week;
  frequency_interval = 1;
  allowed_days = monday ∷ wednesday ∷ friday ∷ [];
  preferred_days = wednesday ∷ [];
  site_windows = hours monday 540 720 ∷ hours wednesday 780 1020 ∷ hours friday 600 660 ∷ [];
  agreement_start_minute = some 600;
  agreement_end_minute = some 960;
  duration_minutes = 90;
  from = 740066;
  to = 740080;
}

abbrev slot : DateOnly → ℕ → ℕ → Bool → CandidateSlot
slot date earliest latest preferred = record {
  date = date;
  earliest_start_minute = earliest;
  latest_start_minute = latest;
  is_preferred = preferred;
}

-- The next week's Monday is another period, and Friday's hour is too short.
test_slots : build_candidate_slots input ≡ slot 740066 600 630 false ∷ slot 740068 780 870 true ∷ []
unfolding build_candidate_slots slots_over slots_on slots_of day_windows first_day last_day
    period_of effective_windows narrowed_windows narrowed recorded_windows group_onto push_under
    lookup insert has sort_by insert_sorted dates_between days_from weekday_of utc_day
    start_of_iso_week round_to_weeks floor_div period_index_of period_bounds_of Weekday-discrete
    ◌*ℤ◌ ◌+ℤ◌ ◌-ℤ◌
test_slots = refl

test_rules :
    split_day_rules ((monday, DayRuleKind.allowed) ∷ (friday, DayRuleKind.preferred) ∷ [])
    ≡ (monday ∷ [], friday ∷ [])
unfolding split_day_rules
test_rules = refl

build_candidate_slots-IsLegalStart_example :
    Any (Offers 740068 800) (build_candidate_slots input) ↔ IsLegalStart input 740068 800
build_candidate_slots-IsLegalStart_example =
    build_candidate_slots-IsLegalStart input (omega arith) 740068 800
