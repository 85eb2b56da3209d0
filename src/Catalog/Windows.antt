-- ===== src/Catalog/Windows.antt =====
-- apps/api/src/catalog/schedule-preview.ts: opening windows, and what an agreement leaves of them.
-- Both kinds of window that the program narrows carry a start and an end; the provenance is absent
-- where the source's window has none.
use ultrakil_scheduling_syst.Prelude.{
  ℕ, ◌*◌, min, max, Bool, false, ◌&&◌, Option, none, some, List, [], ◌∷◌, get_or_else, ltb, nat_eqb,
  if◌then◌else◌, map, lookup, group_onto,
}
use ultrakil_scheduling_syst.Prelude.Sort.{sort_by}
use ultrakil_scheduling_syst.Domain.{
  Minute, Weekday, weekday_eq, DataProvenance, derived, defaulted, manager_confirmed,
}
pub mod Narrowing
pub mod Recorded
pub mod Open

pub record DayWindow : Type 0 where
  pub start_minute : Minute
  pub end_minute : Minute
  pub provenance : Option DataProvenance

pub record SiteWindow : Type 0 where
  pub weekday : Weekday
  pub window : DayWindow

abbrev pub assumed_day_window : DayWindow
assumed_day_window = record { start_minute = 8 * 60; end_minute = 17 * 60; provenance = none }

-- The body of the loop: the agreement restricts the window, possibly out of existence.
unfoldable pub narrowed : DayWindow → Option Minute → Option Minute → Option DayWindow
narrowed window agreement_start agreement_end =
    let start : Minute =
      max window.start_minute (get_or_else agreement_start window.start_minute) in
    let end : Minute = min window.end_minute (get_or_else agreement_end window.end_minute) in
    if ltb start end then some (record window { start_minute = start; end_minute = end }) else none

abbrev pub kept_window : Option DayWindow → List DayWindow → List DayWindow
kept_window none rest = rest
kept_window (some window) rest = window ∷ rest

unfoldable pub narrowed_windows : List DayWindow → Option Minute → Option Minute → List DayWindow
narrowed_windows [] agreement_start agreement_end = []
narrowed_windows (window ∷ windows) agreement_start agreement_end =
    kept_window (narrowed window agreement_start agreement_end)
      (narrowed_windows windows agreement_start agreement_end)

unfoldable pub effective_windows : List DayWindow → Option Minute → Option Minute → List DayWindow
unfolding narrowed_windows
effective_windows site_windows agreement_start agreement_end =
    sort_by (λ a b. ltb a.start_minute b.start_minute)
      (narrowed_windows site_windows agreement_start agreement_end)

-- `start !== null && minute === start`
abbrev pub is_bound : Option Minute → Minute → Bool
is_bound none minute = false
is_bound (some bound) minute = nat_eqb minute bound

unfoldable pub window_provenance_of :
    Bool → Option DataProvenance → Option Minute → Option Minute → Minute → Minute → DataProvenance
window_provenance_of hours_recorded hours_provenance agreement_start agreement_end start end =
    if hours_recorded
    then get_or_else hours_provenance derived
    else if is_bound agreement_start start && is_bound agreement_end end
    then manager_confirmed
    else defaulted

-- The windows that the site records for a weekday, in their order.
unfoldable pub recorded_windows : List SiteWindow → Weekday → List DayWindow
recorded_windows site_windows weekday =
    map (λ site. site.window)
      (get_or_else (lookup weekday (group_onto (λ site. site.weekday) site_windows [])) [])
