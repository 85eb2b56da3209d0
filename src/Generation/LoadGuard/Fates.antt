-- ===== src/Generation/LoadGuard/Fates.antt =====
-- load-guard.ts: where each visit that was asked for ends, and on which day.
use ultrakil_scheduling_syst.Prelude.{
  filter, not, ◌++◌, ltb, get_or_else, Bool, true, false, if◌then◌else◌, ℕ, ◌+◌, ◌≡◌, refl, sym, ap,
  ◌⊎◌, inl, inr, Option, List, [], ◌∷◌, In, Any, Any-append, Any-append_left, Any-append_right, All,
  All-In, All-of_In, In-filter, nat_eq, nat_eqb, nat_eqb_iff, string_eq, pair_eq, String, arith,
  Bool-cases, sum_of,
}
use ultrakil_scheduling_syst.Prelude.Int.{ℤ}
use ultrakil_scheduling_syst.Prelude.Sort.{In-of_In-sort_by}
use ultrakil_scheduling_syst.Domain.{unknown, DateOnly, BranchCode, branch_eq}
use ultrakil_scheduling_syst.Catalog.Periods.{weekday_of}
use ultrakil_scheduling_syst.Generation.Requirement.{RequiredVisit, PreviewAlternative}
use ultrakil_scheduling_syst.Generation.LoadGuard.{CapacityByDay, Slot, UnplaceableVisit}
use ultrakil_scheduling_syst.Generation.LoadGuard.Spread.{
  Guard, alternatives_after, moved_to, move_slot, shed,
}
use ultrakil_scheduling_syst.Generation.LoadGuard.Steps.{Step, moves, sheds}
use ultrakil_scheduling_syst.Generation.LoadGuard.Slots.{
  same_slot, put_other, put_here, take_off_other, weight_of, weight_of-put, weight_of-take_off,
}
use ultrakil_scheduling_syst.Generation.LoadGuard.Reached.{HasDistinctSlots, Step-distinct}

-- What a visit is about, whatever its day, its window and its alternatives.
pub record Work : Type 0 where
  pub service_agreement_id : String
  pub agreement_version_id : Option String
  pub period_index : ℤ
  pub branch_code : BranchCode
  pub duration_minutes : ℕ
  pub required_crew_size : ℕ
  pub required_skill_codes : List String
  pub pinned_from : Option DateOnly

abbrev pub work_of : RequiredVisit → Work
work_of visit = record {
  service_agreement_id = visit.service_agreement_id;
  agreement_version_id = visit.agreement_version_id;
  period_index = visit.period_index;
  branch_code = visit.branch_code;
  duration_minutes = visit.duration_minutes;
  required_crew_size = visit.required_crew_size;
  required_skill_codes = visit.required_skill_codes;
  pinned_from = visit.pinned_from;
}

-- The day that the visit was asked for, or one of its alternatives.
abbrev pub IsDayOf : RequiredVisit → DateOnly → Type 0
IsDayOf asked date =
    (date ≡ asked.visit_date) ⊎ Any (λ option. date ≡ option.date) asked.alternatives

-- The same work on one of its own days.
abbrev pub IsPlanFor : RequiredVisit → RequiredVisit → Type 0
IsPlanFor asked visit = (work_of visit ≡ work_of asked) × IsDayOf asked visit.visit_date

-- And it can only go to its own days from there.
abbrev pub IsVersionOf : RequiredVisit → RequiredVisit → Type 0
IsVersionOf asked visit =
    IsPlanFor asked visit × All (λ option. IsDayOf asked option.date) visit.alternatives

own_alternatives :
    (asked : RequiredVisit) (options : List PreviewAlternative)
    → ((option : PreviewAlternative) → In option options → In option asked.alternatives)
    → All (λ option. IsDayOf asked option.date) options
own_alternatives asked options within =
    All-of_In (λ option. IsDayOf asked option.date) options
      (λ option m. inr (listed asked.alternatives option (within option m)))
  where
    listed :
        (xs : List PreviewAlternative) (x : PreviewAlternative)
        → In x xs
        → Any (λ o. x.date ≡ o.date) xs
    listed [] x m = absurd m
    listed (o ∷ xs) x (inl e) = inl (ap (λ y. y.date) (sym e))
    listed (o ∷ xs) x (inr m) = inr (listed xs x m)

pub IsVersionOf-refl : (asked : RequiredVisit) → IsVersionOf asked asked
IsVersionOf-refl asked =
    ((refl, inl refl), own_alternatives asked asked.alternatives (λ option m. m))

IsVersionOf-moved_to :
    (asked visit : RequiredVisit) (target : PreviewAlternative)
    → In target visit.alternatives
    → IsVersionOf asked visit
    → IsVersionOf asked (moved_to target visit)
unfolding moved_to alternatives_after
IsVersionOf-moved_to asked visit target m ((work, day), days) = (
  (work, All-In (λ option. IsDayOf asked option.date) visit.alternatives days m),
  All-of_In (λ option. IsDayOf asked option.date) (alternatives_after visit target) own,
)
  where
    from_origin :
        (b : Bool) (first option : PreviewAlternative)
        → first.date ≡ visit.visit_date
        → In option (if b then [] else first ∷ [])
        → IsDayOf asked option.date
    from_origin true first option e m = absurd m
    from_origin false first option e (inl same) = rw (← same, e) day
    from_origin false first option e (inr x) = absurd x

    others : List PreviewAlternative
    others = filter (λ option. not (nat_eqb option.date target.date)) visit.alternatives

    origin : PreviewAlternative
    origin = record {
      date = visit.visit_date;
      weekday = weekday_of visit.visit_date;
      window_start_minute = visit.window_start_minute;
      window_end_minute = visit.window_end_minute;
      is_preferred_day = visit.is_preferred_day;
      window_provenance = get_or_else visit.window_provenance unknown;
    }

    back : List PreviewAlternative
    back = if nat_eqb visit.visit_date target.date then [] else origin ∷ []

    own :
        (option : PreviewAlternative)
        → In option (alternatives_after visit target)
        → IsDayOf asked option.date
    own option n =
        let listed : In option (others ++ back) =
          In-of_In-sort_by (λ a b. ltb a.date b.date) (others ++ back) option n in
        elim (Any-append (λ o. o ≡ option) others back listed) [
          | inl k ↦
              All-In (λ option. IsDayOf asked option.date) visit.alternatives days
                (In-filter (λ option. not (nat_eqb option.date target.date)) visit.alternatives k).0
          | inr k ↦ from_origin (nat_eqb visit.visit_date target.date) origin option refl k
        ]

module _ (capacity : CapacityByDay) where
  -- The visit is planned or reported, as the same work on one of its own days.
  abbrev pub HasFate : RequiredVisit → Guard → Type 0
  HasFate asked guard =
      HasDistinctSlots guard
      × (((slot : Slot) × In slot guard.slots × IsVersionOf asked slot.visit)
          ⊎ ((entry : UnplaceableVisit) × In entry guard.unplaceable
              × IsVersionOf asked entry.visit))

  pub Step-HasFate :
      (asked : RequiredVisit) (guard last : Guard)
      → HasFate asked guard
      → Step capacity guard last
      → HasFate asked last
  unfolding move_slot shed
  Step-HasFate asked guard last (d, inr (entry, m, version))
        (moves mover target n free option room) =
      (
        Step-distinct capacity guard _ d (moves mover target n free option room),
        inr (entry, m, version),
      )
  Step-HasFate asked guard last (d, inr (entry, m, version)) (sheds key gone n can) = (
    Step-distinct capacity guard _ d (sheds key gone n can),
    inr (entry, Any-append_left _ guard.unplaceable _ m, version),
  )
  Step-HasFate asked guard last (d, inl (slot, m, version))
        (moves mover target n free option room) =
      (
        Step-distinct capacity guard _ d (moves mover target n free option room),
        inl (elim (Bool-cases (nat_eqb slot.index mover.index)) [
          | inl t ↦
              let same : slot.index ≡ mover.index = (nat_eqb_iff slot.index mover.index).0 t in
              let one : slot ≡ mover = same_slot guard.slots slot mover d m n same in
              (
                record slot { visit = moved_to target mover.visit },
                put_here mover.index _ guard.slots slot m same,
                IsVersionOf-moved_to asked mover.visit target option (rw one at version),
              )
          | inr f ↦ (
            slot,
            put_other mover.index _ guard.slots slot m (λ e. ground (arith, f, e)),
            version,
          )
        ]),
      )
  Step-HasFate asked guard last (d, inl (slot, m, version)) (sheds key gone n can) = (
    Step-distinct capacity guard _ d (sheds key gone n can),
    elim (Bool-cases (nat_eqb slot.index gone.index)) [
      | inl t ↦
          let same : slot.index ≡ gone.index = (nat_eqb_iff slot.index gone.index).0 t in
          let one : slot ≡ gone = same_slot guard.slots slot gone d m n same in
          inr (_, Any-append_right _ guard.unplaceable _ (inl refl), rw one at version)
      | inr f ↦
          inl (
            slot,
            take_off_other gone.index guard.slots slot m (λ e. ground (arith, f, e)),
            version,
          )
    ],
  )

module _ (capacity : CapacityByDay) (weight : Work → ℕ) where
  abbrev pub work_in : Guard → ℕ
  work_in guard =
      weight_of (λ visit. weight (work_of visit)) guard.slots
      + sum_of (λ entry. weight (work_of entry.visit)) guard.unplaceable

  abbrev pub WeighsThe : ℕ → Guard → Type 0
  WeighsThe total guard = HasDistinctSlots guard × (work_in guard ≡ total)

  unplaceable-append :
      (xs ys : List UnplaceableVisit)
      → sum_of (λ entry. weight (work_of entry.visit)) (xs ++ ys)
        ≡ sum_of (λ entry. weight (work_of entry.visit)) xs
          + sum_of (λ entry. weight (work_of entry.visit)) ys
  unplaceable-append [] ys = omega arith
  unplaceable-append (x ∷ xs) ys = omega (arith, unplaceable-append xs ys)

  pub Step-WeighsThe :
      (total : ℕ) (guard last : Guard)
      → WeighsThe total guard
      → Step capacity guard last
      → WeighsThe total last
  unfolding move_slot shed moved_to
  Step-WeighsThe total guard last (d, h) (moves mover target m free option room) = (
    Step-distinct capacity guard _ d (moves mover target m free option room),
    omega (
      arith,
      h,
      weight_of-put (λ visit. weight (work_of visit)) mover (moved_to target mover.visit)
          guard.slots d m,
    ),
  )
  Step-WeighsThe total guard last (d, h) (sheds key gone m can) = (
    Step-distinct capacity guard _ d (sheds key gone m can),
    omega (
      arith,
      h,
      weight_of-take_off (λ visit. weight (work_of visit)) gone guard.slots d m,
      unplaceable-append guard.unplaceable _,
    ),
  )
