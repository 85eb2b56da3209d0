-- ===== src/Generation/ClippedPeriods/Examples.antt =====
-- June 2026 as the portal sends it: Monday 1 June to Sunday 5 July.
use ultrakil_scheduling_syst.Prelude.{◌≡◌, refl, List, [], ◌∷◌, All, In, has, true}
use ultrakil_scheduling_syst.Prelude.Int.{ℤ, pos, ◌+ℤ◌, ◌-ℤ◌, ◌≤ℤ◌}
use ultrakil_scheduling_syst.Domain.{DateOnly}
use ultrakil_scheduling_syst.Eligibility.Messages.{civil}
use ultrakil_scheduling_syst.Catalog.Periods.{
  ◌*ℤ◌, utc_day, start_of_iso_week, month_number, first_of_month, period_bounds_of,
}
use ultrakil_scheduling_syst.Generation.ClippedPeriods.{
  PreviewSkippedPeriod, ClippedPeriodScope, looks_like_a_month_grid, is_at_risk,
  clipped_periods_at_risk,
}
use ultrakil_scheduling_syst.Generation.ClippedPeriods.Fortnights.{
  IsFortnightOf, clipped_periods_at_risk-fortnights,
}

abbrev late_may : DateOnly
late_may = 740066

abbrev fortnight : ℤ → ℤ → PreviewSkippedPeriod
fortnight index start = record { period_index = index; start = start; end = start +ℤ pos 13 }

-- From 25 May, the first fortnight is cut by the start of the range.
abbrev cut_by_start : List PreviewSkippedPeriod
cut_by_start = fortnight (pos 0) (pos 740066) ∷ []

-- From 18 May, the fourth, 29 June to 12 July, is cut by its end.
abbrev cut_by_end : List PreviewSkippedPeriod
cut_by_end = fortnight (pos 3) (pos 740101) ∷ []

abbrev june : ClippedPeriodScope
june = record { from = 740073; to = 740107; periods_holding_a_visit = [] }

test_grid : looks_like_a_month_grid 740073 740107 ≡ true
unfolding looks_like_a_month_grid utc_day month_number first_of_month civil ◌+ℤ◌ ◌-ℤ◌
test_grid = refl

test_at_risk :
    (clipped_periods_at_risk cut_by_start june ≡ cut_by_start)
    × (clipped_periods_at_risk cut_by_end june ≡ [])
unfolding clipped_periods_at_risk is_at_risk looks_like_a_month_grid utc_day month_number
    first_of_month civil has start_of_iso_week ◌+ℤ◌ ◌-ℤ◌
test_at_risk = (refl, refl)

cut_by_start-IsFortnightOf : All (IsFortnightOf late_may) cut_by_start
unfolding period_bounds_of start_of_iso_week utc_day ◌*ℤ◌ ◌+ℤ◌ ◌-ℤ◌
cut_by_start-IsFortnightOf = ((refl, refl), tt)

clipped_periods_at_risk-fortnights_example :
    All
      (λ period.
        (period.start +ℤ pos 1 ≤ℤ pos june.from)
        × (period.end ≤ℤ pos june.to)
        × ¬ In period.period_index june.periods_holding_a_visit)
      (clipped_periods_at_risk cut_by_start june)
clipped_periods_at_risk-fortnights_example =
    clipped_periods_at_risk-fortnights late_may cut_by_start june test_grid
      cut_by_start-IsFortnightOf
