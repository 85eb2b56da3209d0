-- ===== src/Optimizer/CandidateSlots/Days.antt =====
-- candidate-slots.ts: the days from the first to the last.
use ultrakil_scheduling_syst.Prelude.{
  ◌≤◌, ◌≡◌, refl, ◌↔◌, min, max, Option, none, some, arith, get_or_else,
}
use ultrakil_scheduling_syst.Prelude.Int.{ℤ, pos, negsuc, pos_part, ◌≤ℤ◌}
use ultrakil_scheduling_syst.Domain.{DateOnly, weekday_eq}
use ultrakil_scheduling_syst.Catalog.Periods.{period_index_of}
use ultrakil_scheduling_syst.Catalog.Periods.Calendar.{IsWithin, period_index_of-IsWithin}
use ultrakil_scheduling_syst.Catalog.Windows.Narrowing.{IsUntil}
use ultrakil_scheduling_syst.Optimizer.CandidateSlots.{
  SlotInput, interval_of, period_of, first_day, last_day,
}

-- A period that holds a date ends on a date.
bounds_iff :
    (from to begin visit date : DateOnly) (end : Option DateOnly) (a b : ℤ)
    → pos visit ≤ℤ b
    → ((max (max from begin) (pos_part a) ≤ date)
        × (date ≤ min (min to (get_or_else end to)) (pos_part b)))
      ↔ ((from ≤ date) × (date ≤ to))
        × ((begin ≤ date) × IsUntil end date)
        × ((a ≤ℤ pos date) × (pos date ≤ℤ b))
bounds_iff from to begin visit date none a (negsuc b) h = absurd (omega arith)
bounds_iff from to begin visit date (some end) a (negsuc b) h = absurd (omega arith)
bounds_iff from to begin visit date none (pos a) (pos b) h = ground arith
bounds_iff from to begin visit date (some end) (pos a) (pos b) h = ground arith
bounds_iff from to begin visit date none (negsuc a) (pos b) h = ground arith
bounds_iff from to begin visit date (some end) (negsuc a) (pos b) h = ground arith

module _ (input : SlotInput) where
  pub in_period_iff :
      (date : DateOnly)
      → (period_index_of date input.agreement_start_date input.frequency_unit (interval_of input)
          ≡ period_index_of input.visit_date input.agreement_start_date input.frequency_unit
              (interval_of input))
        ↔ IsWithin (period_of input) date
  unfolding period_of
  in_period_iff date =
      period_index_of-IsWithin date input.agreement_start_date input.frequency_unit
        (interval_of input) _ (omega arith)

  -- The days from the first to the last are those of the horizon, of the agreement and of the
  -- visit's own period.
  pub days_iff :
      (date : DateOnly)
      → ((first_day input ≤ date) × (date ≤ last_day input))
        ↔ ((input.from ≤ date) × (date ≤ input.to))
          × ((input.agreement_start_date ≤ date) × IsUntil input.agreement_end_date date)
          × IsWithin (period_of input) date
  unfolding first_day last_day
  days_iff date =
      let own : IsWithin (period_of input) input.visit_date =
        (in_period_iff input.visit_date).0 refl in
      bounds_iff input.from input.to input.agreement_start_date input.visit_date date
        input.agreement_end_date (period_of input).start (period_of input).end own.1
