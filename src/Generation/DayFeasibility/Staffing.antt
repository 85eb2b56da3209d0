-- ===== src/Generation/DayFeasibility/Staffing.antt =====
-- apps/api/src/scheduling/visit-generation/day-feasibility.ts: a day that some schedule can staff is
-- never refused by the checks on supervisors, crew and skills.
use ultrakil_scheduling_syst.Prelude.{
  ◌≤◌, ◌<◌, ◌≡◌, refl, sym, ◌∙◌, inl, inr, true, false, ◌||◌, none, List, [], ◌∷◌, String,
  string_eq, ltb, nat_eqb, has, has-In, In-has, add, has-add, dedup, dedup_from, filter, In, All,
  All-of_In, All-In, In-filter_intro, All-filter, Any-append, Bool-cases, arith,
}
use ultrakil_scheduling_syst.Prelude.Int.{ℤ, pos, +ℤ_parts}
use ultrakil_scheduling_syst.Prelude.Sort.{In-of_In-sort_by}
use ultrakil_scheduling_syst.Prelude.Text.{str_ltb}
use ultrakil_scheduling_syst.Domain.{BranchCode, DateOnly}
use ultrakil_scheduling_syst.Generation.DayFeasibility.{
  DayVisitDemand, BranchDayWorkforce, peak_forced_demand, skills_of, required_skills, one,
  crew_size, needs, holders_of, skill_infeasibility, staffing_infeasibility,
}
use ultrakil_scheduling_syst.Generation.DayFeasibility.Peak.{
  Placed, visits_of, IsInWindow, is_running_at, load_at, peak_forced_demand-le,
}

-- The visits of a schedule that need a skill.
abbrev pub needing : String → List Placed → List Placed
needing skill placed = filter (λ p. needs skill p.0) placed

-- At every instant there are enough supervisors, people and holders of each skill.
pub record IsStaffed (workforce : BranchDayWorkforce) (placed : List Placed) : Type 0 where
  pub has_supervisors : (at : ℤ) → load_at one placed at ≤ workforce.available_pms_count
  pub has_crew : (at : ℤ) → load_at crew_size placed at ≤ workforce.available_employee_count
  pub has_skills :
      (skill : String) (at : ℤ) → load_at one (needing skill placed) at ≤ holders_of workforce skill

abbrev pub TakesTime : Placed → Type 0
TakesTime p = 0 < p.0.duration_minutes

runs_at_start : (p : Placed) → TakesTime p → is_running_at p.1 p ≡ true
runs_at_start p h = let parts = +ℤ_parts p.1 (pos p.0.duration_minutes) in ground (arith, parts)

load_at-In :
    (placed : List Placed) (p : Placed) → In p placed → TakesTime p → 1 ≤ load_at one placed p.1
unfolding load_at
load_at-In [] p m h = absurd m
load_at-In (q ∷ placed) p (inl e) h =
    let runs : is_running_at p.1 q ≡ true = rw e (runs_at_start p h) in rw runs (omega arith)
load_at-In (q ∷ placed) p (inr m) h = omega (arith, load_at-In placed p m h)

visits_of-needing :
    (skill : String) (placed : List Placed)
    → filter (needs skill) (visits_of placed) ≡ visits_of (needing skill placed)
visits_of-needing skill [] = refl
visits_of-needing skill (p ∷ placed) = elim (Bool-cases (needs skill p.0)) [
  | inl t ↦ rw (t, visits_of-needing skill placed) refl
  | inr f ↦ rw (f, visits_of-needing skill placed) refl
]

has-dedup_from :
    (a : String) (seen xs : List String) → has a (dedup_from seen xs) ≡ (has a seen || has a xs)
unfolding dedup_from has
has-dedup_from a seen [] = ground arith
has-dedup_from a seen (x ∷ xs) = ground (arith, has-dedup_from a (add x seen) xs, has-add x a seen)

In-dedup : (a : String) (xs : List String) → In a (dedup xs) → In a xs
unfolding dedup has
In-dedup a xs m = has-In a xs (sym (has-dedup_from a [] xs) ∙ In-has a (dedup_from [] xs) m)

skills_of-In :
    (skill : String) (placed : List Placed)
    → In skill (skills_of (visits_of placed))
    → (p : Placed) × In p (needing skill placed)
unfolding skills_of
skills_of-In skill [] m = absurd m
skills_of-In skill (p ∷ placed) m =
    elim (Any-append (λ x. x ≡ skill) p.0.required_skill_codes (skills_of (visits_of placed)) m) [
      | inl here ↦ (
        p,
        In-filter_intro (λ q. needs skill q.0) (p ∷ placed) (inl refl)
            (In-has skill p.0.required_skill_codes here),
      )
      | inr there ↦ let (q, found) = skills_of-In skill placed there in (q, later q found)
    ]
  where
    later : (q : Placed) → In q (needing skill placed) → In q (needing skill (p ∷ placed))
    later q found = elim (Bool-cases (needs skill p.0)) [
      | inl t ↦ rw t (inr found)
      | inr f ↦ rw f found
    ]

module _ (branch_code : BranchCode) (date : DateOnly) (workforce : BranchDayWorkforce) where
  skills_pass :
      (visits : List DayVisitDemand) (skills : List String)
      → All
          (λ s.
            (0 < holders_of workforce s)
            × (peak_forced_demand one (filter (needs s) visits) ≤ holders_of workforce s))
          skills
      → skill_infeasibility branch_code date visits workforce skills ≡ none
  unfolding skill_infeasibility
  skills_pass visits [] h = refl
  skills_pass visits (s ∷ skills) h =
      let some_hold : nat_eqb (holders_of workforce s) 0 ≡ false =
        let (a, b) = h.0 in ground arith in
      let enough : ltb (holders_of workforce s) (peak_forced_demand one (filter (needs s) visits))
          ≡ false =
        let (a, b) = h.0 in ground arith in
      rw (some_hold, enough) (skills_pass visits skills h.1)

  skill_passes :
      (placed : List Placed)
      → All IsInWindow placed
      → All TakesTime placed
      → IsStaffed workforce placed
      → (skill : String) → In skill (required_skills (visits_of placed))
      → (0 < holders_of workforce skill)
        × (peak_forced_demand one (filter (needs skill) (visits_of placed))
            ≤ holders_of workforce skill)
  unfolding required_skills
  skill_passes placed window time staffed skill m =
      let asked =
        In-dedup skill (skills_of (visits_of placed))
          (In-of_In-sort_by str_ltb (dedup (skills_of (visits_of placed))) skill m) in
      let (p, found) = skills_of-In skill placed asked in
      let some_run = load_at-In (needing skill placed) p found (
        All-In TakesTime (needing skill placed)
          (All-filter TakesTime (λ q. needs skill q.0) placed time) found) in
      let (at, bound) =
        peak_forced_demand-le one (needing skill placed)
          (All-filter IsInWindow (λ q. needs skill q.0) placed window) in
      (
        omega (arith, some_run, staffed.has_skills skill p.1),
        rw (visits_of-needing skill placed) (omega (arith, bound, staffed.has_skills skill at)),
      )

  -- If some schedule keeps every visit of the day in its window and never asks for more supervisors,
  -- people or holders of a skill at once than the branch has, and each visit takes some time, the
  -- checks refuse the day only when no workforce is recorded for the branch at all.
  pub staffing_infeasibility-IsStaffed :
      (placed : List Placed)
      → All IsInWindow placed
      → All TakesTime placed
      → IsStaffed workforce placed
      → 0 < workforce.total_employee_count
      → staffing_infeasibility branch_code date (visits_of placed) workforce ≡ none
  unfolding staffing_infeasibility
  staffing_infeasibility-IsStaffed [] window time staffed recorded = refl
  staffing_infeasibility-IsStaffed (p ∷ placed) window time staffed recorded =
      let day = p ∷ placed in
      let one_runs = load_at-In day p (inl refl) time.0 in
      let (at, supervisors) = peak_forced_demand-le one day window in
      let (instant, people) = peak_forced_demand-le crew_size day window in
      let known : nat_eqb workforce.total_employee_count 0 ≡ false = ground arith in
      let some_pms : nat_eqb workforce.available_pms_count 0 ≡ false =
        let bound = staffed.has_supervisors p.1 in ground (arith, one_runs, bound) in
      let enough_pms : ltb workforce.available_pms_count (peak_forced_demand one (visits_of day))
          ≡ false =
        let bound = staffed.has_supervisors at in ground (arith, supervisors, bound) in
      let enough_crew : ltb workforce.available_employee_count
            (peak_forced_demand crew_size (visits_of day))
          ≡ false =
        let bound = staffed.has_crew instant in ground (arith, people, bound) in
      rw (known, some_pms, enough_pms, enough_crew)
        (skills_pass (visits_of day) (required_skills (visits_of day))
          (All-of_In _ (required_skills (visits_of day)) (skill_passes day window time staffed)))
