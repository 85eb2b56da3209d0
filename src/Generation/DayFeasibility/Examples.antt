-- ===== src/Generation/DayFeasibility/Examples.antt =====
-- Two visits that must overlap, and one that need not.
use ultrakil_scheduling_syst.Prelude.{
  ℕ, ◌≤◌, ◌≡◌, refl, Bool, true, false, none, some, Option, List, [], ◌∷◌, string_eq, has, arith,
}
use ultrakil_scheduling_syst.Prelude.Int.{ℤ, pos, ◌-ℤ◌, ◌+ℤ◌}
use ultrakil_scheduling_syst.Domain.{colombo}
use ultrakil_scheduling_syst.Generation.DayFeasibility.{
  DayVisitDemand, BranchDayWorkforce, DayInfeasibilityCode, forced_interval, forced_visits,
  total_at, peak_from, peak_forced_demand, one, crew_size, staffing_infeasibility, holders_of,
}
use ultrakil_scheduling_syst.Generation.DayFeasibility.Peak.{
  Placed, visits_of, load_at, peak_forced_demand-le,
}
use ultrakil_scheduling_syst.Generation.DayFeasibility.Staffing.{
  IsStaffed, staffing_infeasibility-IsStaffed,
}

abbrev visit : ℕ → ℕ → ℕ → DayVisitDemand
visit start end duration = record {
  service_agreement_id = "agreement";
  window_start_minute = start;
  window_end_minute = end;
  duration_minutes = duration;
  required_crew_size = 2;
  required_skill_codes = [];
}

-- Each of the first two covers the quarter of an hour from 11:00.
abbrev placed : List Placed
placed =
    (visit 600 720 75, pos 610) ∷ (visit 630 720 60, pos 650) ∷ (visit 480 1020 60, pos 900) ∷ []

test_peak : peak_forced_demand crew_size (visits_of placed) ≡ 4
unfolding peak_forced_demand peak_from total_at forced_visits forced_interval ◌-ℤ◌
test_peak = refl

peak_forced_demand-le_example :
    (at : ℤ) × (peak_forced_demand crew_size (visits_of placed) ≤ load_at crew_size placed at)
unfolding ◌+ℤ◌
peak_forced_demand-le_example =
    peak_forced_demand-le crew_size placed
      ((omega arith, omega arith), ((omega arith, omega arith), ((omega arith, omega arith), tt)))

abbrev workforce : ℕ → BranchDayWorkforce
workforce pms = record {
  total_employee_count = 9;
  available_employee_count = 8;
  available_pms_count = pms;
  skill_holder_counts = [];
}

abbrev code_of : Option DayInfeasibilityCode → Bool
code_of none = false
code_of (some _) = true

load_le : (at : ℤ) → load_at one placed at ≤ 3
unfolding load_at
load_le at = ground arith

crew_le : (at : ℤ) → load_at crew_size placed at ≤ 8
unfolding load_at
crew_le at = ground arith

staffed : IsStaffed (workforce 3) placed
unfolding load_at holders_of has
staffed = record {
  has_supervisors = load_le;
  has_crew = crew_le;
  has_skills = λ skill at. omega arith;
}

staffing_infeasibility-IsStaffed_example :
    staffing_infeasibility colombo 740000 (visits_of placed) (workforce 3) ≡ none
unfolding ◌+ℤ◌
staffing_infeasibility-IsStaffed_example =
    staffing_infeasibility-IsStaffed colombo 740000 (workforce 3) placed
      ((omega arith, omega arith), ((omega arith, omega arith), ((omega arith, omega arith), tt)))
      (omega arith, (omega arith, (omega arith, tt))) staffed (omega arith)
