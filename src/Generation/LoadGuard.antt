-- ===== src/Generation/LoadGuard.antt =====
-- apps/api/src/scheduling/visit-generation/load-guard.ts: the data of `applyDailyLoadGuard` and the
-- two loops that count what each branch-day carries. A key `a|b` is a pair. The source's lists hold
-- references to visits that later steps write to: a `Slot` carries the number of the visit in the
-- list, and a reference is that number.
use ultrakil_scheduling_syst.Prelude.{
  ℕ, zero, suc, ◌+◌, ◌-◌, Bool, true, false, Option, none, some, List, [], ◌∷◌, ◌++◌, map, filter,
  String, has, add, lookup, insert, get_or_else, nat_eq, nat_eqb, string_eq, pair_eq, ◌==◌, ltb,
  leb, if◌then◌else◌, not, ◌&&◌, null,
}
use ultrakil_scheduling_syst.Prelude.Int.{ℤ, int_eq}
use ultrakil_scheduling_syst.Prelude.Sort.{sort_by}
use ultrakil_scheduling_syst.Domain.{
  DateOnly, Minute, BranchCode, branch_eq, VisitPlacement, booked, placement_eq, colombo, kandy,
}
use ultrakil_scheduling_syst.Generation.Requirement.{RequiredVisit}
use ultrakil_scheduling_syst.Generation.BranchDayCapacity.{crew_minutes_of}
pub mod Spread
pub mod Feasible
pub mod Warnings
pub mod Whole
pub mod Slots
pub mod Exact
pub mod Steps
pub mod Reached
pub mod Relieved
pub mod Resolved
pub mod Counted
pub mod Kept
pub mod Fates
pub mod Outcome
pub mod Settled
pub mod Caps
pub mod Examples

abbrev pub DayKey : Type 0
DayKey = BranchCode × DateOnly

pub data UnplaceableReason : Type 0 where
  branch_day_at_capacity : UnplaceableReason

pub record UnplaceableVisit : Type 0 where
  pub visit : RequiredVisit
  pub reason : UnplaceableReason
  pub message : String

pub record StandingVisit : Type 0 where
  pub service_agreement_id : String
  pub branch_code : BranchCode
  pub visit_date : DateOnly
  pub window_start_minute : Minute
  pub window_end_minute : Minute
  pub duration_minutes : ℕ
  pub required_crew_size : ℕ
  pub required_skill_codes : List String

-- The same cap everywhere, or one for each branch-day; a day that is absent has no capacity.
pub data CapacityByDay : Type 0 where
  everywhere : ℕ → CapacityByDay
  by_day : List (DayKey × ℕ) → CapacityByDay

abbrev pub capacity_of : CapacityByDay → DayKey → ℕ
capacity_of (everywhere cap) key = cap
capacity_of (by_day caps) key = get_or_else (lookup key caps) 0

abbrev pub minutes_of : RequiredVisit → ℕ
minutes_of visit = crew_minutes_of visit.duration_minutes visit.required_crew_size

abbrev pub standing_minutes_of : StandingVisit → ℕ
standing_minutes_of visit = crew_minutes_of visit.duration_minutes visit.required_crew_size

abbrev pub day_key : RequiredVisit → DayKey
day_key visit = (visit.branch_code, visit.visit_date)

abbrev pub standing_key : StandingVisit → DayKey
standing_key visit = (visit.branch_code, visit.visit_date)

abbrev pub period_key : RequiredVisit → String × ℤ
period_key visit = (visit.service_agreement_id, visit.period_index)

-- What the first loop counts: the last three are of the period's dates and the agreement's days.
pub record Board : Type 0 where
  pub load : List (DayKey × ℕ)
  pub counts : List (DayKey × ℕ)
  pub used_dates : List ((String × ℤ) × List DateOnly)
  pub planned : List ((String × DateOnly) × ℕ)
  pub standing_by_agreement : List (String × List DateOnly)
  pub standing_per_day : List (DayKey × ℕ)

abbrev pub empty_board : Board
empty_board = record {
  load = [];
  counts = [];
  used_dates = [];
  planned = [];
  standing_by_agreement = [];
  standing_per_day = [];
}

-- `map.get(key) ?? 0`
abbrev pub amount : DayKey → List (DayKey × ℕ) → ℕ
amount key amounts = get_or_else (lookup key amounts) 0

-- `map.set(key, (map.get(key) ?? 0) + n)`
unfoldable pub bump : DayKey → ℕ → List (DayKey × ℕ) → List (DayKey × ℕ)
bump key n amounts = insert key (amount key amounts + n) amounts

-- `map.set(key, (map.get(key) ?? n) - n)`
unfoldable pub reduce : DayKey → ℕ → List (DayKey × ℕ) → List (DayKey × ℕ)
reduce key n amounts = insert key (get_or_else (lookup key amounts) n - n) amounts

abbrev pub planned_on : String × DateOnly → List ((String × DateOnly) × ℕ) → ℕ
planned_on pair planned = get_or_else (lookup pair planned) 0

unfoldable pub count_visit : RequiredVisit → Board → Board
unfolding bump
count_visit visit board =
    let pair : String × DateOnly = (visit.service_agreement_id, visit.visit_date) in
    record board {
      load = bump (day_key visit) (minutes_of visit) board.load;
      counts = bump (day_key visit) 1 board.counts;
      used_dates =
          insert (period_key visit)
            (add visit.visit_date (get_or_else (lookup (period_key visit) board.used_dates) []))
            board.used_dates;
      planned = insert pair (planned_on pair board.planned + 1) board.planned;
    }

unfoldable pub count_visits : List RequiredVisit → Board → Board
unfolding count_visit
count_visits [] board = board
count_visits (visit ∷ visits) board = count_visits visits (count_visit visit board)

-- A standing visit that the run is planning again is not counted twice.
unfoldable pub count_standing : StandingVisit → Board → Board
unfolding bump
count_standing visit board =
    let pair : String × DateOnly = (visit.service_agreement_id, visit.visit_date) in
    let dates : List (String × List DateOnly) =
      insert visit.service_agreement_id
        (add visit.visit_date
          (get_or_else (lookup visit.service_agreement_id board.standing_by_agreement) []))
        board.standing_by_agreement in
    if ltb 0 (planned_on pair board.planned)
    then record board {
      standing_by_agreement = dates;
      planned = insert pair (planned_on pair board.planned - 1) board.planned;
    }
    else record board {
      standing_by_agreement = dates;
      load = bump (standing_key visit) (standing_minutes_of visit) board.load;
      counts = bump (standing_key visit) 1 board.counts;
      standing_per_day = bump (standing_key visit) 1 board.standing_per_day;
    }

unfoldable pub count_all_standing : List StandingVisit → Board → Board
unfolding count_standing
count_all_standing [] board = board
count_all_standing (visit ∷ visits) board = count_all_standing visits (count_standing visit board)

-- A visit of the run's list; `is_existing` is membership in `existingWork`, settled before any move.
pub record Slot : Type 0 where
  pub index : ℕ
  pub is_existing : Bool
  pub visit : RequiredVisit

unfoldable pub slots_from : ℕ → List (String × DateOnly) → List RequiredVisit → List Slot
slots_from index in_calendar [] = []
slots_from index in_calendar (visit ∷ visits) =
    record {
      index = index;
      is_existing = has (visit.service_agreement_id, visit.visit_date) in_calendar;
      visit = visit;
    }
    ∷ slots_from (suc index) in_calendar visits

abbrev pub branch_before : BranchCode → BranchCode → Bool
branch_before colombo kandy = true
branch_before _ _ = false

-- By date, then by branch; the other order of the two is that of the keys' texts.
abbrev pub date_first : DayKey → DayKey → Bool
date_first a b = if nat_eqb a.1 b.1 then branch_before (a.0) (b.0) else ltb a.1 b.1

abbrev pub branch_first : DayKey → DayKey → Bool
branch_first a b = if a.0 == b.0 then ltb a.1 b.1 else branch_before (a.0) (b.0)

unfoldable pub overloaded : CapacityByDay → List (DayKey × ℕ) → List DayKey
overloaded capacity load =
    sort_by date_first (
      map (λ entry. entry.0)
        (filter (λ entry. ltb (capacity_of capacity (entry.0)) (entry.1)) load))
