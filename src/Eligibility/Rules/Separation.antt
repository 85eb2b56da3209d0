-- ===== src/Eligibility/Rules/Separation.antt =====
-- apps/api/src/scheduling/eligibility/rules.ts: what `overlaps` and `hasInsufficientTravelGap` say
-- together of a booking and a busy period.
use ultrakil_scheduling_syst.Prelude.{◌≡◌, ◌↔◌, ◌⊎◌, false, String, string_eq, arith}
use ultrakil_scheduling_syst.Prelude.Int.{ℤ, pos, -ℤ_parts, ◌+ℤ◌, +ℤ_parts, ◌≤ℤ◌}
use ultrakil_scheduling_syst.Eligibility.Facts.{BusyPeriod}
use ultrakil_scheduling_syst.Eligibility.Rules.Visit.{overlaps, has_insufficient_travel_gap}

-- The earlier of the two ends before the later one starts; between different sites, an hour before.
abbrev pub IsApart : ℤ → ℤ → String → BusyPeriod → Type 0
IsApart start end site period =
    ((period.end_minute ≤ℤ start)
      × ((period.service_site_id ≡ site) ⊎ (period.end_minute +ℤ pos 60 ≤ℤ start)))
    ⊎ ((¬ (period.end_minute ≤ℤ start))
        × (end ≤ℤ period.start_minute)
        × ((period.service_site_id ≡ site) ⊎ (end +ℤ pos 60 ≤ℤ period.start_minute)))

abbrev pub IsClear : ℤ → ℤ → String → BusyPeriod → Type 0
IsClear start end site period =
    (overlaps start end period.start_minute period.end_minute ≡ false)
    × (has_insufficient_travel_gap start end site period ≡ false)

IsClear-IsApart :
    (start end : ℤ) (site : String) (period : BusyPeriod)
    → IsClear start end site period
    → IsApart start end site period
unfolding has_insufficient_travel_gap
IsClear-IsApart start end site period h = ground (
  arith,
  -ℤ_parts start period.end_minute,
  -ℤ_parts period.start_minute end,
  +ℤ_parts period.end_minute (pos 60),
  +ℤ_parts end (pos 60),
  string_eq.beq_iff period.service_site_id site,
)

IsApart-IsClear :
    (start end : ℤ) (site : String) (period : BusyPeriod)
    → IsApart start end site period
    → IsClear start end site period
unfolding has_insufficient_travel_gap
IsApart-IsClear start end site period h = ground (
  arith,
  -ℤ_parts start period.end_minute,
  -ℤ_parts period.start_minute end,
  +ℤ_parts period.end_minute (pos 60),
  +ℤ_parts end (pos 60),
  string_eq.beq_iff period.service_site_id site,
)

-- A booking neither overlaps a busy period nor leaves it too short a journey exactly when the one
-- ends before the other starts, and an hour before it when they are at different sites.
pub has_insufficient_travel_gap-IsApart :
    (start end : ℤ) (site : String) (period : BusyPeriod)
    → IsClear start end site period ↔ IsApart start end site period
has_insufficient_travel_gap-IsApart start end site period =
    (IsClear-IsApart start end site period, IsApart-IsClear start end site period)
