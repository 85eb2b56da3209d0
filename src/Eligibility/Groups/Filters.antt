-- ===== src/Eligibility/Groups/Filters.antt =====
-- apps/api/src/scheduling/eligibility/conflict-groups.ts: the filter by a group finds what is shown
-- under it.
use ultrakil_scheduling_syst.Prelude.{
  ◌≡◌, ◌≢◌, refl, sym, ◌∙◌, ◌↔◌, ◌⊎◌, inl, inr, Bool, true, false, none, ap, some, List, [], ◌∷◌,
  String, has, has-In, In-has, ◌==◌, ◌=/=◌, string_eq, find, In, In-filter, In-filter_intro,
  find-In, find-none, Any-append, Any-append_left, Any-append_right, Option-cases, Bool-cases,
  arith, beq_refl, filter,
}
use ultrakil_scheduling_syst.Eligibility.Conflicts.{
  ConflictCode, conflict_codes, code_name, branch_mismatch, employee_inactive, employee_unavailable,
  employee_double_booked, employee_travel_gap_too_short, employee_permanently_stationed,
  no_pms_supervisor_available, branch_has_no_pms_supervisor, crew_too_small, skill_not_held,
  duplicate_crew_member, vehicle_inactive, vehicle_branch_mismatch, vehicle_double_booked,
  vehicle_travel_gap_too_short, vehicle_capacity_exceeded, outside_service_hours, window_too_short,
  visit_not_schedulable, assignment_locked, too_many_vehicles, no_feasible_crew, no_feasible_time,
  daily_visit_cap_reached,
}
use ultrakil_scheduling_syst.Eligibility.Groups.{
  ConflictGroup, other, group_eq, conflict_groups, conflict_group_of, conflict_group_of_stored,
  conflict_group_codes, codes_of_groups, named_conflict_group_codes, ConflictGroup-discrete,
  inherited_properties, missing_pms, insufficient_crew, missing_skill, unavailable_vehicle,
  branch_restriction, permanent_staff_restriction, service_window_conflict, employee_overlap,
  vehicle_overlap,
}

-- Some code of the list is spelled like the text.
abbrev pub Lists : List ConflictCode → String → Type 0
Lists codes text = (c : ConflictCode) × In c codes × (code_name c ≡ text)

found_code : (c : ConflictCode) → find (λ d. code_name d == code_name c) conflict_codes ≡ some c
unfolding code_name
found_code branch_mismatch = refl
found_code employee_inactive = refl
found_code employee_unavailable = refl
found_code employee_double_booked = refl
found_code employee_travel_gap_too_short = refl
found_code employee_permanently_stationed = refl
found_code no_pms_supervisor_available = refl
found_code branch_has_no_pms_supervisor = refl
found_code crew_too_small = refl
found_code skill_not_held = refl
found_code duplicate_crew_member = refl
found_code vehicle_inactive = refl
found_code vehicle_branch_mismatch = refl
found_code vehicle_double_booked = refl
found_code vehicle_travel_gap_too_short = refl
found_code vehicle_capacity_exceeded = refl
found_code outside_service_hours = refl
found_code window_too_short = refl
found_code visit_not_schedulable = refl
found_code assignment_locked = refl
found_code too_many_vehicles = refl
found_code no_feasible_crew = refl
found_code no_feasible_time = refl
found_code daily_visit_cap_reached = refl
found_code ConflictCode.no_authorized_driver = refl
found_code ConflictCode.crew_cannot_travel = refl

-- No code is spelled like an inherited property.
own_name : (c : ConflictCode) → has (code_name c) inherited_properties ≡ false
unfolding code_name has
own_name branch_mismatch = refl
own_name employee_inactive = refl
own_name employee_unavailable = refl
own_name employee_double_booked = refl
own_name employee_travel_gap_too_short = refl
own_name employee_permanently_stationed = refl
own_name no_pms_supervisor_available = refl
own_name branch_has_no_pms_supervisor = refl
own_name crew_too_small = refl
own_name skill_not_held = refl
own_name duplicate_crew_member = refl
own_name vehicle_inactive = refl
own_name vehicle_branch_mismatch = refl
own_name vehicle_double_booked = refl
own_name vehicle_travel_gap_too_short = refl
own_name vehicle_capacity_exceeded = refl
own_name outside_service_hours = refl
own_name window_too_short = refl
own_name visit_not_schedulable = refl
own_name assignment_locked = refl
own_name too_many_vehicles = refl
own_name no_feasible_crew = refl
own_name no_feasible_time = refl
own_name daily_visit_cap_reached = refl
own_name ConflictCode.no_authorized_driver = refl
own_name ConflictCode.crew_cannot_travel = refl

stored_name :
    (c : ConflictCode) (text : String)
    → code_name c ≡ text
    → conflict_group_of_stored text ≡ some (conflict_group_of c)
unfolding conflict_group_of_stored
stored_name c text e = rw (← e, own_name c, found_code c) refl

In-conflict_codes : (c : ConflictCode) → In c conflict_codes
In-conflict_codes c = (find-In (λ d. code_name d == code_name c) conflict_codes (found_code c)).0

In-group : (c : ConflictCode) → In c (conflict_group_codes (conflict_group_of c))
unfolding conflict_group_codes
In-group c =
    In-filter_intro (λ d. conflict_group_of d == conflict_group_of c) conflict_codes
      (In-conflict_codes c) (beq_refl (conflict_group_of c))

group_of-In :
    (c : ConflictCode) (g : ConflictGroup) → In c (conflict_group_codes g) → conflict_group_of c ≡ g
unfolding conflict_group_codes
group_of-In c g m =
    (group_eq.beq_iff (conflict_group_of c) g).0
      (In-filter (λ d. conflict_group_of d == g) conflict_codes m).1

codes_of_groups-In :
    (c : ConflictCode) (gs : List ConflictGroup)
    → In c (codes_of_groups gs)
    → In (conflict_group_of c) gs
unfolding codes_of_groups
codes_of_groups-In c [] m = absurd m
codes_of_groups-In c (g ∷ gs) m =
    elim (Any-append (λ x. x ≡ c) (conflict_group_codes g) (codes_of_groups gs) m) [
      | inl a ↦ inl (sym (group_of-In c g a))
      | inr b ↦ inr (codes_of_groups-In c gs b)
    ]

In-codes_of_groups :
    (c : ConflictCode) (gs : List ConflictGroup)
    → In (conflict_group_of c) gs
    → In c (codes_of_groups gs)
unfolding codes_of_groups
In-codes_of_groups c [] m = absurd m
In-codes_of_groups c (g ∷ gs) (inl e) =
    Any-append_left (λ x. x ≡ c) (conflict_group_codes g) (codes_of_groups gs) (rw e (In-group c))
In-codes_of_groups c (g ∷ gs) (inr m) =
    Any-append_right (λ x. x ≡ c) (conflict_group_codes g) (codes_of_groups gs)
      (In-codes_of_groups c gs m)

In-conflict_groups : (g : ConflictGroup) → In g conflict_groups
unfolding has ConflictGroup-discrete
In-conflict_groups g = has-In g conflict_groups (known g)
  where
    known : (h : ConflictGroup) → has h conflict_groups ≡ true
    known missing_pms = refl
    known insufficient_crew = refl
    known missing_skill = refl
    known ConflictGroup.no_authorized_driver = refl
    known unavailable_vehicle = refl
    known branch_restriction = refl
    known permanent_staff_restriction = refl
    known service_window_conflict = refl
    known employee_overlap = refl
    known vehicle_overlap = refl
    known ConflictGroup.crew_cannot_travel = refl
    known other = refl

-- A text is the spelling of a code, or it is unknown.
code_or_unknown :
    (text : String)
    → ((c : ConflictCode) × (code_name c ≡ text))
      ⊎ ((find (λ c. code_name c == text) conflict_codes ≡ none)
          × ((c : ConflictCode) → code_name c ≢ text))
code_or_unknown text =
    let spells : ConflictCode → Bool = λ d. code_name d == text in
    elim (Option-cases (find spells conflict_codes)) [
      | inl e ↦ inr (
        e,
        λ c p.
            let no = find-none spells conflict_codes e (In-conflict_codes c) in
            let yes = (string_eq.beq_iff (code_name c) text).1 p in absurd (cc),
      )
      | inr found ↦
          let (c, e) = found in
          inl (c, (string_eq.beq_iff (code_name c) text).0 (find-In spells conflict_codes e).1)
    ]

some_group : {a b : ConflictGroup} → some a ≡ some b → a ≡ b
some_group e = cc

named_group : (c : ConflictCode) → In c named_conflict_group_codes ↔ (conflict_group_of c ≢ other)
unfolding named_conflict_group_codes
named_group c =
    let named : ConflictGroup → Bool = λ g. g =/= other in
    let group = conflict_group_of c in
    (
      λ m e.
          let kept =
            (In-filter named conflict_groups
              (codes_of_groups-In c (filter named conflict_groups) m)).1 in
          ground (arith, group_eq.beq_iff group other),
      λ h. In-codes_of_groups c (filter named conflict_groups) (
          In-filter_intro named conflict_groups (In-conflict_groups group)
            (ground (arith, group_eq.beq_iff group other))),
    )

abbrev pub IsInherited : String → Type 0
IsInherited text = In text inherited_properties

-- A text that is stored as a code is shown under a named group exactly when the group's filter lists
-- it, and under Other exactly when no named group's filter does and it is not the name of a property
-- that every object inherits: only such a name, which no code is, is shown under no group at all.
pub conflict_group_of_stored_filter :
    (text : String)
    → ((g : ConflictGroup)
        → g ≢ other
        → (conflict_group_of_stored text ≡ some g) ↔ Lists (conflict_group_codes g) text)
      × ((conflict_group_of_stored text ≡ some other)
          ↔ ((¬ Lists named_conflict_group_codes text) × ¬ IsInherited text))
      × ((conflict_group_of_stored text ≡ none) ↔ IsInherited text)
      × ((c : ConflictCode) → code_name c ≡ text → ¬ IsInherited text)
unfolding conflict_group_of_stored
conflict_group_of_stored_filter text = elim (code_or_unknown text) [
  | inl spelled ↦
      let (c, e) = spelled in
      let group = stored_name c text e in
      let own = not_inherited c e in
      (
        λ g h. (
          λ p. (c, rw (some_group (sym p ∙ group)) (In-group c), e),
          λ l. let (d, m, q) = l in stored_name d text q ∙ ap some (group_of-In d g m),
        ),
        (
          λ p. (
            λ l.
                let (d, m, q) = l in
                (named_group d).0 m (some_group (sym (stored_name d text q) ∙ p)),
            own,
          ),
          λ h. elim (Bool-cases (conflict_group_of c == other)) [
            | inl t ↦ group ∙ ap some ((group_eq.beq_iff (conflict_group_of c) other).0 t)
            | inr f ↦ absurd (
                h.0 (
                  c,
                  (named_group c).1 (ground (arith, group_eq.beq_iff (conflict_group_of c) other)),
                  e,
                ))
          ],
        ),
        (λ p. absurd (let clash = sym p ∙ group in cc), λ m. absurd (own m)),
        not_inherited,
      )
  | inr unknown ↦
      let (missing, none_spells) = unknown in
      elim (Bool-cases (has text inherited_properties)) [
        | inl t ↦
            let m = has-In text inherited_properties t in
            rw t (
              λ g h. (λ p. absurd (cc), λ l. let (d, n, q) = l in absurd (none_spells d q)),
              (λ p. absurd (cc), λ h. absurd (h.1 m)),
              (λ p. m, λ k. refl),
              not_inherited,
            )
        | inr f ↦
            rw (f, missing)
              (
                λ g h. (
                  λ p. absurd (h (sym (some_group p))),
                  λ l. let (d, n, q) = l in absurd (none_spells d q),
                ),
                (λ p. (λ l. let (d, n, q) = l in none_spells d q, λ m. lost f m), λ h. refl),
                (λ p. absurd (cc), λ m. absurd (lost f m)),
                not_inherited,
              )
      ]
]
  where
    lost : has text inherited_properties ≡ false → IsInherited text → ⊥
    lost f m = let t = In-has text inherited_properties m in absurd (cc)

    not_inherited : (c : ConflictCode) → code_name c ≡ text → ¬ IsInherited text
    not_inherited c e m =
        let f : has text inherited_properties ≡ false = rw (← e) (own_name c) in lost f m
