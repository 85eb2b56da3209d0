-- ===== src/Generation/RunScope/Examples.antt =====
-- A fortnightly agreement from 25 May 2026, seen from a run over its first fortnight.
use ultrakil_scheduling_syst.Prelude.{
  ◌≡◌, refl, ◌↔◌, ◌≤◌, arith, Bool, true, false, none, some, List, [], ◌∷◌, String, if◌then◌else◌,
  lookup, has, string_eq, ◌==◌,
}
use ultrakil_scheduling_syst.Prelude.Int.{ℤ, pos, ◌+ℤ◌, ◌-ℤ◌}
use ultrakil_scheduling_syst.Domain.{DateOnly, monday, week}
use ultrakil_scheduling_syst.Catalog.Periods.{
  floor_div, utc_day, start_of_iso_week, round_to_weeks, period_index_of,
}
use ultrakil_scheduling_syst.Generation.RunScope.{
  AgreementPeriodShape, AgreementLifetime, ScopedVisit, Range, judges_period, judges_life,
  this_runs_to_judge, left_standing_by,
}
use ultrakil_scheduling_syst.Generation.RunScope.Judged.{
  HasCycles, IsToJudge, left_standing_by-IsToJudge,
}

abbrev fortnightly : AgreementPeriodShape
fortnightly = record {
  service_agreement_id = "a";
  anchor = 740066;
  frequency_unit = week;
  frequency_interval = 2;
  allowed_days = monday ∷ [];
}

abbrev shapes : List (String × AgreementPeriodShape)
shapes = ("a", fortnightly) ∷ []

abbrev planned : List (String × List ℤ)
planned = ("a", pos 0 ∷ []) ∷ []

abbrev lives : List (String × AgreementLifetime)
lives = ("a", record { start = 740066; end = none }) ∷ []

abbrev visit_on : DateOnly → ScopedVisit
visit_on date = record { service_agreement_id = "a"; visit_date = date }

abbrev fortnight : Range
fortnight = record { from = 740066; to = 740087 }

-- 7 June is the fortnight's last day; 8 June stands in the next one, which was not planned.
test_judge :
    (this_runs_to_judge shapes planned lives (visit_on 740079) fortnight ≡ true)
    × (this_runs_to_judge shapes planned lives (visit_on 740080) fortnight ≡ false)
unfolding this_runs_to_judge judges_life judges_period lookup has period_index_of start_of_iso_week
    utc_day round_to_weeks floor_div ◌+ℤ◌ ◌-ℤ◌
test_judge = (refl, refl)

only_one :
    (found : Bool) (shape : AgreementPeriodShape)
    → (if found then some fortnightly else none) ≡ some shape
    → 1 ≤ shape.frequency_interval
only_one true shape e = ground arith
only_one false shape e = absurd (cc)

shapes-HasCycles : HasCycles shapes
unfolding lookup
shapes-HasCycles id shape e = only_one ("a" == id) shape e

left_standing_by-IsToJudge_example :
    (left_standing_by shapes planned lives (visit_on 740079) false true fortnight ≡ false)
    ↔ (true ≡ true) × (false ≡ false) × IsToJudge shapes planned lives (visit_on 740079) fortnight
left_standing_by-IsToJudge_example =
    left_standing_by-IsToJudge shapes planned lives shapes-HasCycles (visit_on 740079) false true
      fortnight
