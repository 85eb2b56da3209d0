-- ===== src/Catalog/Preview/Choice.antt =====
-- catalog/schedule-preview.ts: `rankCandidates`, `chooseForPeriod` and `alternativesFrom`.
use ultrakil_scheduling_syst.Prelude.{
  ℕ, ◌+◌, ◌-◌, Bool, true, false, not, Option, none, some, List, [], ◌∷◌, ◌++◌, map, filter, length,
  has, add, ltb, leb, nat_eqb, nat_eq, ◌==◌, if◌then◌else◌,
}
use ultrakil_scheduling_syst.Prelude.Sort.{sort_by}
use ultrakil_scheduling_syst.Domain.{DateOnly, VisitPlacement, anchored, earliest}
use ultrakil_scheduling_syst.Eligibility.Messages.{civil}
use ultrakil_scheduling_syst.Generation.Requirement.{PreviewAlternative}
use ultrakil_scheduling_syst.Catalog.Preview.{Candidate}
pub mod Picks

-- `compare(a, b) < 0` of the two comparators.
unfoldable pub earlier : Candidate → Candidate → Bool
earlier a b =
    if nat_eqb a.date b.date
    then ltb a.window_start_minute b.window_start_minute
    else ltb a.date b.date

abbrev pub preferring : Candidate → Candidate → Bool → Bool
preferring a b otherwise =
    if a.is_preferred_day
    then if b.is_preferred_day then otherwise else true
    else if b.is_preferred_day
    then false
    else otherwise

unfoldable pub ranks_before : Candidate → Candidate → Bool
unfolding earlier
ranks_before a b = preferring a b (earlier a b)

-- `Math.abs(dayOfMonth(date) - anchor)`
unfoldable pub distance_from : ℕ → Candidate → ℕ
distance_from anchor candidate =
    ((civil candidate.date).day - anchor) + (anchor - (civil candidate.date).day)

unfoldable pub nearer_to : ℕ → Candidate → Candidate → Bool
unfolding earlier distance_from
nearer_to anchor a b = preferring a b (
    if nat_eqb (distance_from anchor a) (distance_from anchor b)
    then earlier a b
    else ltb (distance_from anchor a) (distance_from anchor b))

pub record Pick : Type 0 where
  pub candidate : Candidate
  pub placement : VisitPlacement

-- The local state of `chooseForPeriod`.
pub record Choice : Type 0 where
  pub picks : List Pick
  pub used_dates : List DateOnly

abbrev pub no_choice : Choice
no_choice = record { picks = []; used_dates = [] }

unfoldable pub take : Candidate → VisitPlacement → Choice → Choice
take candidate placement choice = record {
  picks = choice.picks ++ record { candidate = candidate; placement = placement } ∷ [];
  used_dates = add candidate.date choice.used_dates;
}

abbrev pub first_of : List Candidate → Option Candidate
first_of [] = none
first_of (candidate ∷ candidates) = some candidate

abbrev pub is_unused : List DateOnly → Candidate → Bool
is_unused used candidate = not (has candidate.date used)

-- The loop over the anchors; both breaks end it.
unfoldable pub take_anchors : List Candidate → ℕ → List ℕ → Choice → Choice
unfolding take
take_anchors placeable count [] choice = choice
take_anchors placeable count (anchor ∷ anchors) choice = elim (leb count (length choice.picks)) [
  | true ↦ choice
  | false ↦
      elim (first_of
        (sort_by (nearer_to anchor) (filter (is_unused choice.used_dates) placeable))) [
          | none ↦ choice
          | some best ↦ take_anchors placeable count anchors (take best anchored choice)
        ]
]

-- The loop over the candidates in rank order.
unfoldable pub take_earliest : ℕ → List Candidate → Choice → Choice
unfolding take
take_earliest count [] choice = choice
take_earliest count (candidate ∷ candidates) choice = elim (leb count (length choice.picks)) [
  | true ↦ choice
  | false ↦ elim (has candidate.date choice.used_dates) [
    | true ↦ take_earliest count candidates choice
    | false ↦ take_earliest count candidates (take candidate earliest choice)
  ]
]

unfoldable pub chosen : List Candidate → ℕ → List ℕ → Choice
unfolding take_anchors take_earliest
chosen placeable count anchor_days =
    take_earliest count (sort_by ranks_before placeable)
      (take_anchors placeable count (sort_by ltb anchor_days) no_choice)

unfoldable pub choose_for_period : List Candidate → ℕ → List ℕ → List Pick
choose_for_period placeable count anchor_days =
    sort_by (λ a b. ltb a.candidate.date b.candidate.date)
      (chosen placeable count anchor_days).picks

abbrev pub alternative_of : Candidate → PreviewAlternative
alternative_of candidate = record {
  date = candidate.date;
  weekday = candidate.weekday;
  window_start_minute = candidate.window_start_minute;
  window_end_minute = candidate.window_end_minute;
  is_preferred_day = candidate.is_preferred_day;
  window_provenance = candidate.window_provenance;
}

-- The loop over the candidates in date order, with the dates that have an entry.
unfoldable pub alternatives_over :
    List DateOnly → List DateOnly → List Candidate → List PreviewAlternative
alternatives_over chosen_dates seen [] = []
alternatives_over chosen_dates seen (candidate ∷ candidates) =
    let rest : List PreviewAlternative = alternatives_over chosen_dates seen candidates in
    let entered : List PreviewAlternative =
      alternatives_over chosen_dates (add candidate.date seen) candidates in
    if has candidate.date chosen_dates
    then rest
    else if has candidate.date seen
    then rest
    else alternative_of candidate ∷ entered

unfoldable pub alternatives_from : List Candidate → List DateOnly → List PreviewAlternative
unfolding alternatives_over
alternatives_from placeable chosen_dates =
    alternatives_over chosen_dates [] (sort_by earlier placeable)
