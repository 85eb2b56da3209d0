-- ===== src/Catalog/Preview/Scan/Groups.antt =====
-- catalog/schedule-preview.ts: the periods that the scan meets, and the bookings of each.
use ultrakil_scheduling_syst.Prelude.{
  ◌≤◌, ◌≡◌, refl, ap, ◌∙◌, ◌↔◌, ◌⊎◌, inl, inr, Bool, true, false, ◌&&◌, List, [], ◌∷◌, In,
  Any-append, Any-append_left, Any-append_right, has, has-In, In-has, filter, In-filter,
  In-filter_intro, dedup, In-dedup, leb, ltb, add, In-add, lookup, keys, keys-insert, push_under,
  lookup-push_under, get_or_else, ◌==◌, nat_eq, arith, Bool-cases, if◌then◌else◌,
}
use ultrakil_scheduling_syst.Prelude.Sort.{
  IsDistinct, append-IsDistinct, In-sort_by, In-of_In-sort_by,
}
use ultrakil_scheduling_syst.Prelude.Int.{ℤ, int_eq}
use ultrakil_scheduling_syst.Domain.{DateOnly, weekday_eq}
use ultrakil_scheduling_syst.Catalog.Dates.{dates_between, In-dates_between}
use ultrakil_scheduling_syst.Catalog.Preview.{SchedulePreviewInput, effective_start, last_date}
use ultrakil_scheduling_syst.Catalog.Preview.Scan.{
  Scan, empty_scan, scan_day, scan_step, scan_days, scanned, booked_in_range,
}
use ultrakil_scheduling_syst.Catalog.Preview.Scan.Legal.{own_period}

-- `periodBounds` has an entry for this period.
abbrev pub IsMet : Scan → ℤ → Type 0
IsMet scan period = In period (keys scan.period_bounds)

-- `bookedByPeriod.get(period) ?? []`
abbrev pub booked_of : Scan → ℤ → List DateOnly
booked_of scan period = get_or_else (lookup period scan.booked_by_period) []

add-IsDistinct : (a : ℤ) (xs : List ℤ) → IsDistinct xs → IsDistinct (add a xs)
unfolding add
add-IsDistinct a xs h = elim (Bool-cases (has a xs)) [
  | inl t ↦ rw (add, t) h
  | inr f ↦ rw (add, f) (append-IsDistinct xs a (λ m. let t = In-has a xs m in absurd (cc)) h)
]

module _ (input : SchedulePreviewInput) where
  pub guarded_groups :
      {A : Type 0} (read : Scan → A) (b : Bool) (seen used : Scan)
      → read used ≡ read seen
      → read (if b then seen else used) ≡ read seen
  guarded_groups read true seen used e = refl
  guarded_groups read false seen used e = e

  keys-scan_step :
      (scan : Scan) (date : DateOnly)
      → keys (scan_step input scan date).period_bounds
        ≡ add (own_period input date) (keys scan.period_bounds)
  unfolding scan_step scan_day
  keys-scan_step scan date =
      guarded_groups (λ s. keys s.period_bounds) _ _ _ refl
      ∙ keys-insert (own_period input date) _ scan.period_bounds

  keys-scan_days :
      (dates : List DateOnly) (scan : Scan)
      → IsDistinct (keys scan.period_bounds)
      → IsDistinct (keys (scan_days input dates scan).period_bounds)
  unfolding scan_days
  keys-scan_days [] scan h = h
  keys-scan_days (date ∷ dates) scan h =
      keys-scan_days dates (scan_step input scan date)
        (rw (keys-scan_step scan date) (add-IsDistinct (own_period input date) _ h))

  scan_days-IsMet :
      (dates : List DateOnly) (scan : Scan) (period : ℤ)
      → IsMet (scan_days input dates scan) period
        ↔ IsMet scan period ⊎ ((date : DateOnly) × In date dates × (own_period input date ≡ period))
  unfolding scan_days
  scan_days-IsMet [] scan period = (inl, λ m. elim m [ inl n ↦ n | inr (date, n, e) ↦ absurd n ])
  scan_days-IsMet (date ∷ dates) scan period =
      let rest = scan_days-IsMet dates (scan_step input scan date) period in
      let step = In-add (own_period input date) period (keys scan.period_bounds) in
      (
        λ m. elim (rest.0 m) [
          | inl n ↦ elim (step.0 (rw (keys-scan_step scan date) at n)) [
            | inl o ↦ inl o
            | inr e ↦ inr (date, inl refl, e)
          ]
          | inr (d, n, e) ↦ inr (d, inr n, e)
        ],
        λ m. elim m [
          | inl n ↦ rest.1 (inl (rw (keys-scan_step scan date) (step.1 (inl n))))
          | inr (d, inl same, e) ↦
              rest.1 (
                inl (rw (keys-scan_step scan date) (step.1 (inr (ap (own_period input) same ∙ e)))))
          | inr (d, inr n, e) ↦ rest.1 (inr (d, n, e))
        ],
      )

  booked_of-if :
      (b : Bool) (period asked : ℤ) (date : DateOnly) (groups : List (ℤ × List DateOnly))
      (d : DateOnly)
      → In d (get_or_else (lookup asked (if b then push_under period date groups else groups)) [])
        ↔ In d (get_or_else (lookup asked groups) []) ⊎ ((date ≡ d) × (b ≡ true) × (period ≡ asked))
  booked_of-if false period asked date groups d =
      (inl, λ m. elim m [ inl n ↦ n | inr (_, t, _) ↦ absurd (cc) ])
  booked_of-if true period asked date groups d =
      let old : List DateOnly = get_or_else (lookup asked groups) [] in
      rw (lookup-push_under period asked date groups) (elim (Bool-cases (period == asked)) [
        | inl t ↦
            let same : period ≡ asked = (int_eq.beq_iff period asked).0 t in
            rw t (
              λ m. elim (Any-append _ old (date ∷ []) m) [
                | inl n ↦ inl n
                | inr (inl e) ↦ inr (e, refl, same)
                | inr (inr x) ↦ absurd x
              ],
              λ m. elim m [
                | inl n ↦ Any-append_left _ old (date ∷ []) n
                | inr (e, _, _) ↦ Any-append_right _ old (date ∷ []) (inl e)
              ],
            )
        | inr f ↦ rw f (
          λ m. elim (Any-append _ old [] m) [ inl n ↦ inl n | inr x ↦ absurd x ],
          λ m. elim m [
            | inl n ↦ Any-append_left _ old [] n
            | inr (_, _, e) ↦
                let t : (period == asked) ≡ true = (int_eq.beq_iff period asked).1 e in absurd (cc)
          ],
        )
      ])

  booked_of-scan_step :
      (scan : Scan) (date : DateOnly)
      → (scan_step input scan date).booked_by_period ≡ (
          if has date (booked_in_range input)
          then push_under (own_period input date) date scan.booked_by_period
          else scan.booked_by_period)
  unfolding scan_step scan_day
  booked_of-scan_step scan date = guarded_groups (λ s. s.booked_by_period) _ _ _ refl

  In-scan_step :
      (scan : Scan) (date : DateOnly) (period : ℤ) (d : DateOnly)
      → In d (booked_of (scan_step input scan date) period)
        ↔ In d (booked_of scan period)
          ⊎ ((date ≡ d)
              × (has date (booked_in_range input) ≡ true)
              × (own_period input date ≡ period))
  In-scan_step scan date period d = rw (booked_of-scan_step scan date) (
      booked_of-if (has date (booked_in_range input)) (own_period input date) period date
        scan.booked_by_period d)

  In-scan_days :
      (dates : List DateOnly) (scan : Scan) (period : ℤ) (d : DateOnly)
      → In d (booked_of (scan_days input dates scan) period)
        ↔ In d (booked_of scan period)
          ⊎ (In d dates × (has d (booked_in_range input) ≡ true) × (own_period input d ≡ period))
  unfolding scan_days
  In-scan_days [] scan period d = (inl, λ m. elim m [ inl n ↦ n | inr (n, _, _) ↦ absurd n ])
  In-scan_days (date ∷ dates) scan period d =
      let rest = In-scan_days dates (scan_step input scan date) period d in
      let step = In-scan_step scan date period d in
      (
        λ m. elim (rest.0 m) [
          | inl n ↦ elim (step.0 n) [
            | inl o ↦ inl o
            | inr (e, t, p) ↦ inr (inl e, rw (← e) t, rw (← e) p)
          ]
          | inr (n, t, p) ↦ inr (inr n, t, p)
        ],
        λ m. elim m [
          | inl n ↦ rest.1 (inl (step.1 (inl n)))
          | inr (inl e, t, p) ↦ rest.1 (inl (step.1 (inr (e, rw e t, rw e p))))
          | inr (inr n, t, p) ↦ rest.1 (inr (n, t, p))
        ],
      )

  abbrev pub IsInRange : DateOnly → Type 0
  IsInRange date = (effective_start input ≤ date) × (date ≤ last_date input)

  pub keys-scanned : IsDistinct (keys (scanned input).period_bounds)
  keys-scanned =
      keys-scan_days (dates_between (effective_start input) (last_date input)) empty_scan tt

  -- The periods that the scan meets are those of the days of the horizon.
  pub scanned-IsMet :
      (period : ℤ)
      → IsMet (scanned input) period
        ↔ (date : DateOnly) × IsInRange date × (own_period input date ≡ period)
  scanned-IsMet period =
      let days : List DateOnly = dates_between (effective_start input) (last_date input) in
      let met = scan_days-IsMet days empty_scan period in
      (
        λ m. elim (met.0 m) [
          | inl x ↦ absurd x
          | inr (date, n, e) ↦ (date, (In-dates_between _ _ date).0 n, e)
        ],
        λ (date, inside, e). met.1 (inr (date, (In-dates_between _ _ date).1 inside, e)),
      )

  -- The bookings of a period are the booked dates of the horizon that lie in it.
  pub In-booked_of :
      (period : ℤ) (date : DateOnly)
      → In date (booked_of (scanned input) period)
        ↔ In date (booked_in_range input) × IsInRange date × (own_period input date ≡ period)
  unfolding lookup
  In-booked_of period date =
      let days : List DateOnly = dates_between (effective_start input) (last_date input) in
      let found = In-scan_days days empty_scan period date in
      (
        λ m. elim (found.0 m) [
          | inl x ↦ absurd x
          | inr (n, t, e) ↦ (has-In date _ t, (In-dates_between _ _ date).0 n, e)
        ],
        λ (m, inside, e). found.1 (inr ((In-dates_between _ _ date).1 inside, In-has date _ m, e)),
      )

  -- They are the agreed dates that the horizon holds.
  pub In-booked_in_range :
      (date : DateOnly)
      → In date (booked_in_range input) ↔ In date input.booked_dates × IsInRange date
  unfolding booked_in_range
  In-booked_in_range date =
      let held : List DateOnly =
        filter (λ day. leb (effective_start input) day && leb day (last_date input))
          input.booked_dates in
      (
        λ m.
            let (n, t) =
              In-filter _ input.booked_dates
                ((In-dedup held date).0 (In-of_In-sort_by ltb (dedup held) date m)) in
            (n, (ground arith, ground arith)),
        λ (n, (low, high)).
            In-sort_by ltb (dedup held) date
              ((In-dedup held date).1 (In-filter_intro _ input.booked_dates n (ground arith))),
      )
