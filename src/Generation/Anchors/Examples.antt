-- ===== src/Generation/Anchors/Examples.antt =====
-- Two visits a month, booked on 20 and 5 March, 6 and 21 April and 7 May 2026.
use ultrakil_scheduling_syst.Prelude.{
  ◌≡◌, refl, ◌≤◌, List, [], ◌∷◌, All, length, lookup, insert, arith,
}
use ultrakil_scheduling_syst.Prelude.Sort.{insert_sorted, sort_by, IsAscending}
use ultrakil_scheduling_syst.Domain.{DateOnly}
use ultrakil_scheduling_syst.Eligibility.Messages.{civil}
use ultrakil_scheduling_syst.Catalog.Periods.{month_number}
use ultrakil_scheduling_syst.Generation.Anchors.{
  day_of_month, median, group_by_month, sample_at, anchors_from, anchor_days_from,
}
use ultrakil_scheduling_syst.Generation.Anchors.Usual.{IsBetween, anchor_days_from_lem}

abbrev bookings : List DateOnly
bookings = 740000 ∷ 739985 ∷ 740017 ∷ 740032 ∷ 740048 ∷ []

-- The two usual days stay apart, and the half of 20 and 21 is rounded up.
test_anchors : anchor_days_from bookings 2 ≡ 6 ∷ 21 ∷ []
unfolding anchor_days_from anchors_from sample_at group_by_month median day_of_month sort_by
    insert_sorted lookup insert month_number civil
test_anchors = refl

-- A third visit that no month was booked for has no anchor.
test_unreached : anchor_days_from bookings 3 ≡ 6 ∷ 21 ∷ []
unfolding anchor_days_from anchors_from sample_at group_by_month median day_of_month sort_by
    insert_sorted lookup insert month_number civil
test_unreached = refl

bookings-IsBetween : All (λ date. IsBetween 5 21 (day_of_month date)) bookings
unfolding day_of_month civil
bookings-IsBetween = (
  (omega arith, omega arith),
  (
    (omega arith, omega arith),
    ((omega arith, omega arith), ((omega arith, omega arith), ((omega arith, omega arith), tt))),
  ),
)

anchor_days_from_lem_example :
    IsAscending (anchor_days_from bookings 2)
    × (length (anchor_days_from bookings 2) ≤ 2)
    × All (IsBetween 5 21) (anchor_days_from bookings 2)
anchor_days_from_lem_example = anchor_days_from_lem 5 21 bookings 2 bookings-IsBetween
