-- ===== src/Catalog/Preview/Scan/Spans.antt =====
-- catalog/schedule-preview.ts: the first and the last day that the scan meets of each period.
use ultrakil_scheduling_syst.Prelude.{
  ℕ, zero, suc, ◌+◌, ◌-◌, ◌≤◌, ◌<◌, ◌≡◌, ◌≢◌, refl, sym, ap, ◌∙◌, ◌⊎◌, inl, inr, Option, none, some,
  lookup, insert, lookup-insert, ◌==◌, Bool-cases, arith,
}
use ultrakil_scheduling_syst.Prelude.Int.{ℤ, int_eq}
use ultrakil_scheduling_syst.Domain.{DateOnly}
use ultrakil_scheduling_syst.Catalog.Dates.{dates_between, days_from}
use ultrakil_scheduling_syst.Catalog.Preview.{SchedulePreviewInput, effective_start, last_date}
use ultrakil_scheduling_syst.Catalog.Preview.Scan.{
  Bounds, Scan, stretched, empty_scan, scan_day, scan_step, scan_days, scanned,
}
use ultrakil_scheduling_syst.Catalog.Preview.Scan.Legal.{own_period}
use ultrakil_scheduling_syst.Catalog.Preview.Scan.Groups.{guarded_groups}

module _ (input : SchedulePreviewInput) where
  -- Of the days from the first to before the next, these two are the first and the last of the
  -- period.
  pub record IsSpan (next : ℕ) (period : ℤ) (bounds : Bounds) : Type 0 where
    pub start_in : (effective_start input ≤ bounds.start) × (bounds.start < next)
    pub start_of : own_period input bounds.start ≡ period
    pub end_in : (effective_start input ≤ bounds.end) × (bounds.end < next)
    pub end_of : own_period input bounds.end ≡ period
    pub covers :
        (date : DateOnly)
        → effective_start input ≤ date
        → date < next
        → own_period input date ≡ period
        → (bounds.start ≤ date) × (date ≤ bounds.end)

  -- No day of the period was met before the next.
  abbrev IsUnmet : ℕ → ℤ → Type 0
  IsUnmet next period =
      (date : DateOnly)
      → effective_start input ≤ date
      → date < next
      → own_period input date ≢ period

  abbrev pub SpansOr : ℕ → ℤ → Option Bounds → Type 0
  SpansOr next period none = IsUnmet next period
  SpansOr next period (some bounds) = IsSpan next period bounds

  abbrev HasSpans : ℕ → Scan → Type 0
  HasSpans next scan = (period : ℤ) → SpansOr next period (lookup period scan.period_bounds)

  split : (next date : ℕ) → date < suc next → (date ≡ next) ⊎ (date < next)
  split next date h = ground arith

  -- The next day belongs to the period.
  stretched-IsSpan :
      (next : DateOnly) (met : Option Bounds)
      → effective_start input ≤ next
      → SpansOr next (own_period input next) met
      → IsSpan (suc next) (own_period input next) (stretched met next)
  stretched-IsSpan next none from h = record {
    start_in = (from, omega arith);
    start_of = refl;
    end_in = (from, omega arith);
    end_of = refl;
    covers = λ date low high e. elim (split next date high) [
      | inl same ↦ omega (arith, same)
      | inr before ↦ absurd (h date low before e)
    ];
  }
  stretched-IsSpan next (some bounds) from h = record {
    start_in = (h.start_in.0, omega (arith, h.start_in.1));
    start_of = h.start_of;
    end_in = (from, omega arith);
    end_of = refl;
    covers = λ date low high e. elim (split next date high) [
      | inl same ↦ omega (arith, same, h.start_in.1)
      | inr before ↦ omega (arith, h.covers date low before e)
    ];
  }

  -- The next day belongs to another period.
  still-SpansOr :
      (next : DateOnly) (period : ℤ) (met : Option Bounds)
      → own_period input next ≢ period
      → SpansOr next period met
      → SpansOr (suc next) period met
  still-SpansOr next period none other h = λ date low high e. elim (split next date high) [
    | inl same ↦ other (ap (own_period input) (sym same) ∙ e)
    | inr before ↦ h date low before e
  ]
  still-SpansOr next period (some bounds) other h = record {
    start_in = (h.start_in.0, omega (arith, h.start_in.1));
    start_of = h.start_of;
    end_in = (h.end_in.0, omega (arith, h.end_in.1));
    end_of = h.end_of;
    covers = λ date low high e. elim (split next date high) [
      | inl same ↦ absurd (other (ap (own_period input) (sym same) ∙ e))
      | inr before ↦ h.covers date low before e
    ];
  }

  period_bounds-scan_step :
      (scan : Scan) (date : DateOnly)
      → (scan_step input scan date).period_bounds
        ≡ insert
            (own_period input date)
            (stretched (lookup (own_period input date) scan.period_bounds) date)
            scan.period_bounds
  unfolding scan_step scan_day
  period_bounds-scan_step scan date = guarded_groups input (λ s. s.period_bounds) _ _ _ refl

  scan_step-HasSpans :
      (scan : Scan) (next : DateOnly)
      → effective_start input ≤ next
      → HasSpans next scan
      → HasSpans (suc next) (scan_step input scan next)
  scan_step-HasSpans scan next from h period =
      let own : ℤ = own_period input next in
      rw
        (
          period_bounds-scan_step scan next,
          lookup-insert own period (stretched (lookup own scan.period_bounds) next)
              scan.period_bounds,
        )
        (elim (Bool-cases (own == period)) [
          | inl t ↦
              let same : own ≡ period = (int_eq.beq_iff own period).0 t in
              rw (t, ← same) (stretched-IsSpan next (lookup own scan.period_bounds) from (h own))
          | inr f ↦ rw f (
              still-SpansOr next period (lookup period scan.period_bounds)
                (λ e. absurd (let t = (int_eq.beq_iff own period).1 e in cc)) (h period))
        ])

  scan_days-HasSpans :
      (left next : ℕ) (scan : Scan)
      → effective_start input ≤ next
      → HasSpans next scan
      → HasSpans (next + left) (scan_days input (days_from next left) scan)
  unfolding scan_days days_from
  scan_days-HasSpans zero next scan from h = let same : next + 0 ≡ next = omega arith in rw same h
  scan_days-HasSpans (suc left) next scan from h =
      let same : next + suc left ≡ suc next + left = omega arith in
      rw same (
        scan_days-HasSpans left (suc next) (scan_step input scan next) (omega (arith, from))
          (scan_step-HasSpans scan next from h))

  -- For each day of the horizon the scan has the first and the last day of its period.
  pub scanned-IsSpan :
      (date : DateOnly)
      → effective_start input ≤ date
      → date ≤ last_date input
      → (bounds : Bounds) × (lookup (own_period input date) (scanned input).period_bounds
          ≡ some bounds)
        × IsSpan (suc (last_date input)) (own_period input date) bounds
  unfolding dates_between lookup
  scanned-IsSpan date low high =
      let period : ℤ = own_period input date in
      let spans =
        scan_days-HasSpans (suc (last_date input) - effective_start input) (effective_start input)
          empty_scan (omega arith) (λ k d l h. absurd (omega (arith, l, h))) period in
      let end : effective_start input + (suc (last_date input) - effective_start input)
          ≡ suc (last_date input) =
        omega (arith, low, high) in
      found (lookup period (scanned input).period_bounds) refl (rw end at spans)
    where
      found :
          (met : Option Bounds)
          → lookup (own_period input date) (scanned input).period_bounds ≡ met
          → SpansOr (suc (last_date input)) (own_period input date) met
          → (bounds : Bounds) × (lookup (own_period input date) (scanned input).period_bounds
              ≡ some bounds)
            × IsSpan (suc (last_date input)) (own_period input date) bounds
      found none e h = absurd (h date low (omega (arith, high)) refl)
      found (some bounds) e h = (bounds, e, h)
