-- ===== src/Optimizer/PublishReadiness/Warnings.antt =====
-- apps/api/src/scheduling/optimizer/publish-readiness.ts: what the warnings count.
use ultrakil_scheduling_syst.Prelude.{
  ℕ, zero, suc, ◌+◌, ◌≡◌, refl, ◌∙◌, ap, ◌↔◌, ◌⊎◌, count_of, some_of, is_some, not, In, In-map,
  map-In, In-filter, In-filter_intro, In-dedup, arith, inl, inr, Bool, true, false, Option, none,
  some, List, [], ◌∷◌, map, filter, String, if◌then◌else◌, ◌==◌, string_eq, add, dedup, dedup_from,
  lookup, lookup-insert, length, ltb, get_or_else, Bool-cases, beq_refl,
}
use ultrakil_scheduling_syst.Optimizer.PublishReadiness.{
  ProvenanceAssignment, ProvenanceWarning, ProvenanceWarningCode, warning_eq,
  ProvenanceWarningCode-discrete, Affected, flag, flag_if, is_unconfirmed, flag_assignment,
  flag_assignments, report_codes, provenance_warnings, provenance_warning_codes,
  provenance_warning_message, crew_size_unconfirmed, day_rule_unconfirmed, duration_unconfirmed,
  hours_unconfirmed, site_branch_unconfirmed, vehicle_branch_unconfirmed, is_confirmed,
  SiteBranchConfidence, SiteBranchSource, is_site_branch_confirmed, confirmed,
  branch_manager_confirmed,
}
use ultrakil_scheduling_syst.Domain.{
  DataProvenance, unknown, source, derived, defaulted, manager_confirmed,
}

-- The distinct visits among the assignments that are unconfirmed for a code.
abbrev pub affected_visits : List ProvenanceAssignment → ProvenanceWarningCode → List String
affected_visits assignments code =
    dedup (map (λ a. a.generated_visit_id) (filter (λ a. is_unconfirmed a code) assignments))

visits_of : Affected → ProvenanceWarningCode → List String
visits_of affected code = get_or_else (lookup code affected) []

flag_if_other :
    (b : Bool) (d c : ProvenanceWarningCode) (id : String) (affected : Affected)
    → (d == c) ≡ false
    → visits_of (flag_if b d id affected) c ≡ visits_of affected c
unfolding flag visits_of
flag_if_other false d c id affected f = refl
flag_if_other true d c id affected f =
    rw (lookup-insert d c (add id (visits_of affected d)) affected, f) refl

flag_if_same :
    (b : Bool) (c : ProvenanceWarningCode) (id : String) (affected : Affected)
    → visits_of (flag_if b c id affected) c
      ≡ (if b then add id (visits_of affected c) else visits_of affected c)
unfolding flag visits_of
flag_if_same false c id affected = refl
flag_if_same true c id affected =
    rw (lookup-insert c c (add id (visits_of affected c)) affected, beq_refl c) refl

abbrev gains : Bool → String → List String → List String
gains b id visits = if b then add id visits else visits

visits_of-flag_assignment :
    (affected : Affected) (a : ProvenanceAssignment) (c : ProvenanceWarningCode)
    → visits_of (flag_assignment affected a) c ≡ (
        if is_unconfirmed a c
        then add a.generated_visit_id (visits_of affected c)
        else visits_of affected c)
unfolding flag_assignment ProvenanceWarningCode-discrete
visits_of-flag_assignment affected a vehicle_branch_unconfirmed =
    flag_if_same _ vehicle_branch_unconfirmed _ _
    ∙ ap (gains (is_unconfirmed a vehicle_branch_unconfirmed) a.generated_visit_id) (
        flag_if_other _ site_branch_unconfirmed vehicle_branch_unconfirmed _ _ refl
        ∙ flag_if_other _ day_rule_unconfirmed vehicle_branch_unconfirmed _ _ refl
        ∙ flag_if_other _ duration_unconfirmed vehicle_branch_unconfirmed _ _ refl
        ∙ flag_if_other _ crew_size_unconfirmed vehicle_branch_unconfirmed _ _ refl
        ∙ flag_if_other _ hours_unconfirmed vehicle_branch_unconfirmed _ _ refl)
visits_of-flag_assignment affected a site_branch_unconfirmed =
    flag_if_other _ vehicle_branch_unconfirmed site_branch_unconfirmed _ _ refl
    ∙ flag_if_same _ site_branch_unconfirmed _ _
    ∙ ap (gains (is_unconfirmed a site_branch_unconfirmed) a.generated_visit_id) (
        flag_if_other _ day_rule_unconfirmed site_branch_unconfirmed _ _ refl
        ∙ flag_if_other _ duration_unconfirmed site_branch_unconfirmed _ _ refl
        ∙ flag_if_other _ crew_size_unconfirmed site_branch_unconfirmed _ _ refl
        ∙ flag_if_other _ hours_unconfirmed site_branch_unconfirmed _ _ refl)
visits_of-flag_assignment affected a day_rule_unconfirmed =
    flag_if_other _ vehicle_branch_unconfirmed day_rule_unconfirmed _ _ refl
    ∙ flag_if_other _ site_branch_unconfirmed day_rule_unconfirmed _ _ refl
    ∙ flag_if_same _ day_rule_unconfirmed _ _
    ∙ ap (gains (is_unconfirmed a day_rule_unconfirmed) a.generated_visit_id) (
        flag_if_other _ duration_unconfirmed day_rule_unconfirmed _ _ refl
        ∙ flag_if_other _ crew_size_unconfirmed day_rule_unconfirmed _ _ refl
        ∙ flag_if_other _ hours_unconfirmed day_rule_unconfirmed _ _ refl)
visits_of-flag_assignment affected a duration_unconfirmed =
    flag_if_other _ vehicle_branch_unconfirmed duration_unconfirmed _ _ refl
    ∙ flag_if_other _ site_branch_unconfirmed duration_unconfirmed _ _ refl
    ∙ flag_if_other _ day_rule_unconfirmed duration_unconfirmed _ _ refl
    ∙ flag_if_same _ duration_unconfirmed _ _
    ∙ ap (gains (is_unconfirmed a duration_unconfirmed) a.generated_visit_id) (
        flag_if_other _ crew_size_unconfirmed duration_unconfirmed _ _ refl
        ∙ flag_if_other _ hours_unconfirmed duration_unconfirmed _ _ refl)
visits_of-flag_assignment affected a crew_size_unconfirmed =
    flag_if_other _ vehicle_branch_unconfirmed crew_size_unconfirmed _ _ refl
    ∙ flag_if_other _ site_branch_unconfirmed crew_size_unconfirmed _ _ refl
    ∙ flag_if_other _ day_rule_unconfirmed crew_size_unconfirmed _ _ refl
    ∙ flag_if_other _ duration_unconfirmed crew_size_unconfirmed _ _ refl
    ∙ flag_if_same _ crew_size_unconfirmed _ _
    ∙ ap (gains (is_unconfirmed a crew_size_unconfirmed) a.generated_visit_id)
        (flag_if_other _ hours_unconfirmed crew_size_unconfirmed _ _ refl)
visits_of-flag_assignment affected a hours_unconfirmed =
    flag_if_other _ vehicle_branch_unconfirmed hours_unconfirmed _ _ refl
    ∙ flag_if_other _ site_branch_unconfirmed hours_unconfirmed _ _ refl
    ∙ flag_if_other _ day_rule_unconfirmed hours_unconfirmed _ _ refl
    ∙ flag_if_other _ duration_unconfirmed hours_unconfirmed _ _ refl
    ∙ flag_if_other _ crew_size_unconfirmed hours_unconfirmed _ _ refl
    ∙ flag_if_same _ hours_unconfirmed _ _

visits_of-flag_assignments :
    (affected : Affected) (assignments : List ProvenanceAssignment) (c : ProvenanceWarningCode)
    → visits_of (flag_assignments affected assignments) c
      ≡ dedup_from
          (visits_of affected c)
          (map (λ a. a.generated_visit_id) (filter (λ a. is_unconfirmed a c) assignments))
unfolding flag_assignments dedup_from
visits_of-flag_assignments affected [] c = refl
visits_of-flag_assignments affected (a ∷ rest) c =
    visits_of-flag_assignments (flag_assignment affected a) rest c
    ∙ rw (visits_of-flag_assignment affected a c)
        (elim (Bool-cases (is_unconfirmed a c)) [ inl t ↦ rw t refl | inr f ↦ rw f refl ])

report : List String → ProvenanceWarningCode → Option ProvenanceWarning
report visits c =
    if ltb 0 (length visits)
    then some (record {
      code = c;
      message = provenance_warning_message c;
      affected_visit_count = length visits;
    })
    else none

-- A report is given once for each time that its code is listed.
reports : ℕ → Option ProvenanceWarning → List ProvenanceWarning
reports n none = []
reports zero (some w) = []
reports (suc n) (some w) = w ∷ reports n (some w)

filter-report_codes :
    (affected : Affected) (c : ProvenanceWarningCode) (codes : List ProvenanceWarningCode)
    → filter (λ w. w.code == c) (report_codes affected codes)
      ≡ reports (count_of (λ d. d == c) codes) (report (visits_of affected c) c)
unfolding report_codes reports report visits_of
filter-report_codes affected c [] = elim (Bool-cases (ltb 0 (length (visits_of affected c)))) [
  | inl t ↦ rw t refl
  | inr f ↦ rw f refl
]
filter-report_codes affected c (d ∷ codes) =
    let rest = filter-report_codes affected c codes in
    elim (Bool-cases (ltb 0 (length (visits_of affected d)))) [
      | inl t ↦ elim (Bool-cases (d == c)) [
        | inl e ↦ rw (t, e) (pushed _ _ _ _ (rw t at (carried e)) rest)
        | inr n ↦ rw (t, n, no_more _) rest
      ]
      | inr f ↦ elim (Bool-cases (d == c)) [
        | inl e ↦ rw (f, e) (skipped _ _ _ (rw f at (carried e)) rest)
        | inr n ↦ rw (f, n, no_more _) rest
      ]
    ]
  where
    carried : (d == c) ≡ true → report (visits_of affected d) d ≡ report (visits_of affected c) c
    carried e = ap (λ x. report (visits_of affected x) x) ((warning_eq.beq_iff d c).0 e)

    no_more : (n : ℕ) → 0 + n ≡ n
    no_more n = omega arith

    one : (n : ℕ) → 1 + n ≡ suc n
    one n = omega arith

    pushed :
        (w : ProvenanceWarning) (o : Option ProvenanceWarning) (n : ℕ) (l : List ProvenanceWarning)
        → some w ≡ o
        → l ≡ reports n o
        → w ∷ l ≡ reports (1 + n) o
    pushed w none n l e h = absurd (cc)
    pushed w (some v) n l e h = let same : w ≡ v = cc in rw (same, one n) (ap (λ k. v ∷ k) h)

    skipped :
        (o : Option ProvenanceWarning) (n : ℕ) (l : List ProvenanceWarning)
        → none ≡ o
        → l ≡ reports n o
        → l ≡ reports (1 + n) o
    skipped none n l e h = h
    skipped (some v) n l e h = absurd (cc)

-- The provenance was stated by the source or confirmed by a manager.
abbrev pub IsStated : DataProvenance → Type 0
IsStated p = (p ≡ source) ⊎ (p ≡ manager_confirmed)

-- What each code means of an assignment.
abbrev pub IsUnconfirmed : ProvenanceAssignment → ProvenanceWarningCode → Type 0
IsUnconfirmed a hours_unconfirmed = ¬ IsStated a.window_provenance
IsUnconfirmed a crew_size_unconfirmed = ¬ IsStated a.crew_size_provenance
IsUnconfirmed a duration_unconfirmed = ¬ IsStated a.duration_provenance
IsUnconfirmed a day_rule_unconfirmed = ¬ IsStated a.day_rule_provenance
IsUnconfirmed a site_branch_unconfirmed =
    ¬ ((a.branch_confidence ≡ confirmed) × (a.branch_source ≡ branch_manager_confirmed))
IsUnconfirmed a vehicle_branch_unconfirmed = In none a.vehicle_branch_ids

IsStated-iff : (p : DataProvenance) → (not (is_confirmed p) ≡ true) ↔ (¬ IsStated p)
IsStated-iff source = (λ h. absurd (cc), λ h. absurd (h (inl refl)))
IsStated-iff manager_confirmed = (λ h. absurd (cc), λ h. absurd (h (inr refl)))
IsStated-iff unknown = (λ h k. ground arith, λ h. refl)
IsStated-iff derived = (λ h k. ground arith, λ h. refl)
IsStated-iff defaulted = (λ h k. ground arith, λ h. refl)

branch_iff :
    (c : SiteBranchConfidence) (s : SiteBranchSource)
    → (not (is_site_branch_confirmed c s) ≡ true)
      ↔ (¬ ((c ≡ confirmed) × (s ≡ branch_manager_confirmed)))
branch_iff c s = ground arith

none_iff :
    (ids : List (Option String))
    → (some_of (λ branch_id. not (is_some branch_id)) ids ≡ true) ↔ In none ids
none_iff [] = (λ h. absurd (cc), λ h. absurd h)
none_iff (none ∷ ids) = (λ h. inl refl, λ h. refl)
none_iff (some b ∷ ids) = (
  λ h. inr ((none_iff ids).0 h),
  λ h. elim h [ inl e ↦ absurd (cc) | inr m ↦ (none_iff ids).1 m ],
)

IsUnconfirmed-iff :
    (a : ProvenanceAssignment) (c : ProvenanceWarningCode)
    → (is_unconfirmed a c ≡ true) ↔ IsUnconfirmed a c
IsUnconfirmed-iff a hours_unconfirmed = IsStated-iff a.window_provenance
IsUnconfirmed-iff a crew_size_unconfirmed = IsStated-iff a.crew_size_provenance
IsUnconfirmed-iff a duration_unconfirmed = IsStated-iff a.duration_provenance
IsUnconfirmed-iff a day_rule_unconfirmed = IsStated-iff a.day_rule_provenance
IsUnconfirmed-iff a site_branch_unconfirmed = branch_iff a.branch_confidence a.branch_source
IsUnconfirmed-iff a vehicle_branch_unconfirmed = none_iff a.vehicle_branch_ids

-- The visit has an assignment that is unconfirmed for the code.
abbrev pub IsAffected : List ProvenanceAssignment → ProvenanceWarningCode → String → Type 0
IsAffected assignments c id =
    (a : ProvenanceAssignment) × In a assignments × (a.generated_visit_id ≡ id) × IsUnconfirmed a c

affected_visits-IsAffected :
    (assignments : List ProvenanceAssignment) (c : ProvenanceWarningCode) (id : String)
    → In id (affected_visits assignments c) ↔ IsAffected assignments c id
affected_visits-IsAffected assignments c id =
    let listed = filter (λ a. is_unconfirmed a c) assignments in
    let distinct = In-dedup (map (λ a. a.generated_visit_id) listed) id in
    (
      λ m.
          let (a, n, e) = In-map (λ a. a.generated_visit_id) listed id (distinct.0 m) in
          let (k, t) = In-filter (λ a. is_unconfirmed a c) assignments n in
          (a, k, e, (IsUnconfirmed-iff a c).0 t),
      λ h.
          let (a, k, e, u) = h in
          distinct.1 (
            rw (← e) (
              map-In (λ a. a.generated_visit_id) listed a
                (In-filter_intro (λ a. is_unconfirmed a c) assignments k
                  ((IsUnconfirmed-iff a c).1 u)))),
    )

-- Each warning code is reported at most once: when some visit is affected, with the number of the
-- distinct visits that are. A visit is affected when an assignment of it, among those to be
-- published, is unconfirmed for the code: its window, crew size, duration or day rule neither stated
-- nor confirmed, its site's branch not confirmed by the branch manager, or a vehicle with no branch.
pub provenance_warnings_lem :
    (assignments : List ProvenanceAssignment) (c : ProvenanceWarningCode)
    → (filter (λ w. w.code == c) (provenance_warnings assignments) ≡ (
        if ltb 0 (length (affected_visits assignments c))
        then record {
          code = c;
          message = provenance_warning_message c;
          affected_visit_count = length (affected_visits assignments c);
        }
          ∷ []
        else []))
      × ((id : String) → In id (affected_visits assignments c) ↔ IsAffected assignments c id)
unfolding provenance_warnings report dedup visits_of lookup reports ProvenanceWarningCode-discrete
provenance_warnings_lem assignments c = (
  filter-report_codes (flag_assignments [] assignments) c provenance_warning_codes
      ∙ rw (once c, visits_of-flag_assignments [] assignments c)
          (elim (Bool-cases (ltb 0 (length (affected_visits assignments c)))) [
            | inl t ↦ rw t refl
            | inr f ↦ rw f refl
          ]),
  affected_visits-IsAffected assignments c,
)
  where
    once : (d : ProvenanceWarningCode) → count_of (λ b. b == d) provenance_warning_codes ≡ 1
    once crew_size_unconfirmed = refl
    once day_rule_unconfirmed = refl
    once duration_unconfirmed = refl
    once hours_unconfirmed = refl
    once site_branch_unconfirmed = refl
    once vehicle_branch_unconfirmed = refl
