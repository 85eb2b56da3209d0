-- ===== src/Generation/LoadGuard/Spread.antt =====
-- load-guard.ts: moving visits off a day that is over its cap, and shedding what has nowhere to go.
use ultrakil_scheduling_syst.Prelude.{
  ℕ, ◌+◌, Bool, true, false, Option, none, some, List, [], ◌∷◌, ◌++◌, map, filter, find, String,
  has, add, lookup, insert, get_or_else, nat_eq, nat_eqb, string_eq, pair_eq, ◌==◌, ltb, leb,
  if◌then◌else◌, not, ◌&&◌, null,
}
use ultrakil_scheduling_syst.Prelude.Int.{ℤ, int_eq}
use ultrakil_scheduling_syst.Prelude.Sort.{sort_by}
use ultrakil_scheduling_syst.Prelude.Text.{str_ltb, concat, show}
use ultrakil_scheduling_syst.Domain.{
  DateOnly, branch_eq, branch_name, booked, spread, placement_eq, unknown,
}
use ultrakil_scheduling_syst.Eligibility.Messages.{show_date}
use ultrakil_scheduling_syst.Catalog.Periods.{weekday_of}
use ultrakil_scheduling_syst.Generation.Requirement.{RequiredVisit, PreviewAlternative}
use ultrakil_scheduling_syst.Generation.LoadGuard.{
  DayKey, UnplaceableVisit, branch_day_at_capacity, CapacityByDay, capacity_of, minutes_of, day_key,
  period_key, amount, bump, reduce, Slot,
}

pub record Guard : Type 0 where
  pub slots : List Slot
  pub load : List (DayKey × ℕ)
  pub counts : List (DayKey × ℕ)
  pub used_dates : List ((String × ℤ) × List DateOnly)
  pub unplaceable : List UnplaceableVisit

-- The visit that a reference points to.
unfoldable pub slot_at : ℕ → List Slot → Option Slot
slot_at index slots = find (λ slot. nat_eqb slot.index index) slots

abbrev pub is_on : DayKey → Slot → Bool
is_on key slot = day_key slot.visit == key

abbrev pub is_booked : Slot → Bool
is_booked slot = slot.visit.placement == booked

unfoldable pub can_move : DayKey → Slot → Bool
can_move key slot = is_on key slot && not (is_booked slot) && not (null slot.visit.alternatives)

unfoldable pub can_shed : DayKey → Slot → Bool
can_shed key slot = is_on key slot && not (is_booked slot) && not slot.is_existing

-- By agreement, then by date, then by start.
unfoldable pub moves_before : Slot → Slot → Bool
moves_before a b =
    if a.visit.service_agreement_id == b.visit.service_agreement_id
    then if nat_eqb a.visit.visit_date b.visit.visit_date
      then ltb a.visit.window_start_minute b.visit.window_start_minute
      else ltb a.visit.visit_date b.visit.visit_date
    else str_ltb a.visit.service_agreement_id b.visit.service_agreement_id

-- Heaviest first.
unfoldable pub sheds_before : Slot → Slot → Bool
sheds_before a b =
    if nat_eqb (minutes_of a.visit) (minutes_of b.visit)
    then if a.visit.service_agreement_id == b.visit.service_agreement_id
      then ltb a.visit.window_start_minute b.visit.window_start_minute
      else str_ltb a.visit.service_agreement_id b.visit.service_agreement_id
    else ltb (minutes_of b.visit) (minutes_of a.visit)

abbrev pub references : List Slot → List ℕ
references slots = map (λ slot. slot.index) slots

abbrev pub first_alternative : List PreviewAlternative → Option PreviewAlternative
first_alternative [] = none
first_alternative (alternative ∷ alternatives) = some alternative

-- `visit.alternatives` without the day it goes to, and with the day it comes from.
unfoldable pub alternatives_after : RequiredVisit → PreviewAlternative → List PreviewAlternative
alternatives_after visit target =
    let origin : PreviewAlternative = record {
      date = visit.visit_date;
      weekday = weekday_of visit.visit_date;
      window_start_minute = visit.window_start_minute;
      window_end_minute = visit.window_end_minute;
      is_preferred_day = visit.is_preferred_day;
      window_provenance = get_or_else visit.window_provenance unknown;
    } in
    sort_by (λ a b. ltb a.date b.date)
      (filter (λ alternative. not (nat_eqb alternative.date target.date)) visit.alternatives
        ++ (if nat_eqb visit.visit_date target.date then [] else origin ∷ []))

unfoldable pub moved_to : PreviewAlternative → RequiredVisit → RequiredVisit
unfolding alternatives_after
moved_to target visit = record visit {
  visit_date = target.date;
  window_start_minute = target.window_start_minute;
  window_end_minute = target.window_end_minute;
  is_preferred_day = target.is_preferred_day;
  window_provenance = some target.window_provenance;
  placement = spread;
  alternatives = alternatives_after visit target;
}

-- The write through the reference.
unfoldable pub put : ℕ → RequiredVisit → List Slot → List Slot
put index visit [] = []
put index visit (slot ∷ slots) =
    let rest : List Slot = put index visit slots in
    if nat_eqb slot.index index then record slot { visit = visit } ∷ rest else slot ∷ rest

unfoldable pub take_off : ℕ → List Slot → List Slot
take_off index slots = filter (λ slot. not (nat_eqb slot.index index)) slots

unfoldable pub move_slot : Slot → PreviewAlternative → Guard → Guard
unfolding bump reduce put moved_to
move_slot slot target guard =
    let visit : RequiredVisit = slot.visit in
    let minutes : ℕ = minutes_of visit in
    let from : DayKey = day_key visit in
    let to : DayKey = (visit.branch_code, target.date) in
    let used : List DateOnly = get_or_else (lookup (period_key visit) guard.used_dates) [] in
    record guard {
      slots = put slot.index (moved_to target visit) guard.slots;
      load = bump to minutes (reduce from minutes guard.load);
      counts = bump to 1 (reduce from 1 guard.counts);
      used_dates =
          insert (period_key visit)
            (add target.date (filter (λ date. not (nat_eqb date visit.visit_date)) used))
            guard.used_dates;
    }

-- `usedDates.get(period)?.delete(date)`
abbrev pub forget_date :
    RequiredVisit → List ((String × ℤ) × List DateOnly) → List ((String × ℤ) × List DateOnly)
forget_date visit used_dates = elim (lookup (period_key visit) used_dates) [
  | none ↦ used_dates
  | some used ↦
      insert (period_key visit) (filter (λ date. not (nat_eqb date visit.visit_date)) used)
        used_dates
]

unfoldable pub shed : ℕ → Slot → Guard → Guard
unfolding reduce take_off
shed cap slot guard =
    let visit : RequiredVisit = slot.visit in
    record guard {
      slots = take_off slot.index guard.slots;
      load = reduce (day_key visit) (minutes_of visit) guard.load;
      counts = reduce (day_key visit) 1 guard.counts;
      used_dates = forget_date visit guard.used_dates;
      unplaceable =
          guard.unplaceable
          ++ record {
            visit = visit;
            reason = branch_day_at_capacity;
            message = concat (
                show_date visit.visit_date
                ∷ " in "
                ∷ branch_name visit.branch_code
                ∷ " already carries the "
                ∷ show cap
                ∷ " crew-minutes a day this branch plans for, and no other day inside this visit's own period has room for it. It is left unplanned rather than placed on a day that cannot carry it."
                ∷ []);
          }
            ∷ [];
    }

module _ (capacity : CapacityByDay) (standing_by_agreement : List (String × List DateOnly)) where
  -- The alternatives that may take the visit: free for its period, empty of the agreement's
  -- standing work, and not over the cap with the visit on them. `suits` is a further condition.
  unfoldable pub has_room : RequiredVisit → Guard → PreviewAlternative → Bool
  has_room visit guard alternative =
      let used : List DateOnly = get_or_else (lookup (period_key visit) guard.used_dates) [] in
      let occupied : List DateOnly =
        get_or_else (lookup visit.service_agreement_id standing_by_agreement) [] in
      let to : DayKey = (visit.branch_code, alternative.date) in
      not (has alternative.date used)
      && not (has alternative.date occupied)
      && leb (amount to guard.load + minutes_of visit) (capacity_of capacity to)

  unfoldable pub target_of :
      (PreviewAlternative → Bool) → RequiredVisit → Guard → Option PreviewAlternative
  unfolding has_room
  target_of suits visit guard =
      let load_of : PreviewAlternative → ℕ =
        λ alternative. amount (visit.branch_code, alternative.date) guard.load in
      first_alternative (
        sort_by
          (λ a b.
            if nat_eqb (load_of a) (load_of b)
            then ltb a.date b.date
            else ltb (load_of a) (load_of b))
          (filter (λ alternative. has_room visit guard alternative && suits alternative)
            visit.alternatives))

  module _ (key : DayKey) where
    abbrev pub is_overloaded : Guard → Bool
    is_overloaded guard = ltb (capacity_of capacity key) (amount key guard.load)

    unfoldable pub try_move : Option Slot → Guard → Guard
    unfolding target_of move_slot
    try_move none guard = guard
    try_move (some slot) guard = elim (target_of (λ alternative. true) slot.visit guard) [
      | none ↦ guard
      | some target ↦ move_slot slot target guard
    ]

    -- The loop over the movers: it ends when the day is within its cap.
    unfoldable pub move_off : List ℕ → Guard → Guard
    unfolding try_move slot_at
    move_off [] guard = guard
    move_off (reference ∷ references_) guard = elim (is_overloaded guard) [
      | false ↦ guard
      | true ↦ move_off references_ (try_move (slot_at reference guard.slots) guard)
    ]

    unfoldable pub try_shed : Option Slot → Guard → Guard
    unfolding shed
    try_shed none guard = guard
    try_shed (some slot) guard = shed (capacity_of capacity key) slot guard

    unfoldable pub shed_off : List ℕ → Guard → Guard
    unfolding try_shed slot_at
    shed_off [] guard = guard
    shed_off (reference ∷ references_) guard = elim (is_overloaded guard) [
      | false ↦ guard
      | true ↦ shed_off references_ (try_shed (slot_at reference guard.slots) guard)
    ]

    -- A day with no capacity is not a full day: nothing is shed from it.
    unfoldable pub relieve_day : Guard → Guard
    unfolding move_off shed_off can_move can_shed moves_before sheds_before
    relieve_day guard =
        let spread_out : Guard =
          move_off (references (sort_by moves_before (filter (can_move key) guard.slots))) guard in
        if ltb 0 (capacity_of capacity key) && is_overloaded spread_out
        then shed_off (references (sort_by sheds_before (filter (can_shed key) spread_out.slots)))
            spread_out
        else spread_out

  unfoldable pub relieve : List DayKey → Guard → Guard
  unfolding relieve_day
  relieve [] guard = guard
  relieve (key ∷ keys_) guard = relieve keys_ (relieve_day key guard)
