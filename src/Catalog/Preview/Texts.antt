-- ===== src/Catalog/Preview/Texts.antt =====
-- catalog/schedule-preview.ts: `clockText`, `explainShortfall` and the booked date that no
-- candidate serves, with the texts that a manager reads.
use ultrakil_scheduling_syst.Prelude.{
  ℕ, ◌-◌, ◌/◌, ◌%◌, Bool, true, false, not, Option, none, some, List, [], ◌∷◌, String, null, has,
  ltb, nat_eqb, get_or_else, if◌then◌else◌,
}
use ultrakil_scheduling_syst.Prelude.Int.{ℤ}
use ultrakil_scheduling_syst.Prelude.Sort.{sort_by}
use ultrakil_scheduling_syst.Prelude.Text.{concat, show, pad2}
use ultrakil_scheduling_syst.Domain.{
  DateOnly, Minute, Weekday, weekday_eq, monday, tuesday, wednesday, thursday, friday, saturday,
  sunday, DataProvenance, defaulted, booked,
}
use ultrakil_scheduling_syst.Eligibility.Messages.{show_date}
use ultrakil_scheduling_syst.Catalog.Periods.{weekday_of}
use ultrakil_scheduling_syst.Catalog.Windows.{
  DayWindow, assumed_day_window, effective_windows, window_provenance_of,
}
use ultrakil_scheduling_syst.Catalog.Preview.{
  SchedulePreviewInput, PreviewVisit, PreviewBookingIssue, BookingIssueReason,
  site_closed_on_booked_day, window_too_short_for_booked_visit, agreement_window_outside_site_hours,
  ShortfallReason, not_enough_allowed_days, site_closed_on_allowed_days, window_too_short_for_visit,
  period_held_by_a_cancelled_visit,
}
use ultrakil_scheduling_syst.Catalog.Preview.Scan.{Bounds}

unfoldable pub clock_text : Minute → String
clock_text minute = concat (pad2 (minute / 60) ∷ ":" ∷ pad2 (minute % 60) ∷ [])

-- `weekday.toLowerCase()`
unfoldable pub weekday_text : Weekday → String
weekday_text monday = "monday"
weekday_text tuesday = "tuesday"
weekday_text wednesday = "wednesday"
weekday_text thursday = "thursday"
weekday_text friday = "friday"
weekday_text saturday = "saturday"
weekday_text sunday = "sunday"

pub record ShortfallContext : Type 0 where
  pub requested : ℕ
  pub scheduled : ℕ
  pub bounds : Bounds
  pub had_allowed_day : Bool
  pub had_open_day : Bool
  pub held_by_a_cancellation : Bool
  pub duration_minutes : ℕ

pub record Explanation : Type 0 where
  pub reason : ShortfallReason
  pub message : String

-- The order of the tests is the source's: a cancellation outranks the other explanations.
unfoldable pub explain_shortfall : ShortfallContext → Explanation
explain_shortfall context =
    let span : String =
      concat (show_date context.bounds.start ∷ " to " ∷ show_date context.bounds.end ∷ []) in
    let short_by : ℕ = context.requested - context.scheduled in
    let fitted : List String =
      "Only "
      ∷ show context.scheduled
      ∷ " of "
      ∷ show context.requested
      ∷ " visit(s) fit between "
      ∷ span
      ∷ " — short by "
      ∷ show short_by
      ∷ [] in
    if context.held_by_a_cancellation
    then record {
      reason = period_held_by_a_cancelled_visit;
      message =
          if nat_eqb context.scheduled 0
          then concat (
              "The only visit between " ∷ span
              ∷ " is cancelled, and a cancelled visit cannot be re-used or replaced on its own day. Reinstate it, or allow another weekday so the period can be served."
              ∷ [])
          else concat (
              concat fitted
              ∷ ", because the remaining day(s) are held by cancelled visits. Reinstate them, or allow another weekday."
              ∷ []);
    }
    else if not context.had_allowed_day
    then record {
      reason = not_enough_allowed_days;
      message = concat (
          "No allowed weekday falls between "
          ∷ span
          ∷ ", so none of the "
          ∷ show context.requested
          ∷ " visit(s) can be placed. Allow more weekdays."
          ∷ []);
    }
    else if not context.had_open_day
    then record {
      reason = site_closed_on_allowed_days;
      message = concat (
          "The site is closed on every allowed weekday between " ∷ span
          ∷ ". Add opening hours for an allowed day, or allow a day the site is open." ∷ []);
    }
    else if nat_eqb context.scheduled 0
    then record {
      reason = window_too_short_for_visit;
      message = concat (
          "The site is open on an allowed day between "
          ∷ span
          ∷ ", but never for the "
          ∷ show context.duration_minutes
          ∷ " minutes this visit needs. Widen the hours or shorten the visit."
          ∷ []);
    }
    else record {
      reason = not_enough_allowed_days;
      message = concat (concat fitted ∷ ". Allow more weekdays, or lower the frequency." ∷ []);
    }

pub record Fallback : Type 0 where
  pub visit : PreviewVisit
  pub issue : Option PreviewBookingIssue

abbrev pub first_window : List DayWindow → Option DayWindow
first_window [] = none
first_window (window ∷ windows) = some window

-- The longest window, and of those the earliest. A recorded window ends no earlier than it starts.
unfoldable pub longest_first : DayWindow → DayWindow → Bool
longest_first a b =
    let length_a : ℕ = a.end_minute - a.start_minute in
    let length_b : ℕ = b.end_minute - b.start_minute in
    if nat_eqb length_a length_b then ltb a.start_minute b.start_minute else ltb length_b length_a

module _ (date : DateOnly) (period : ℤ) (input : SchedulePreviewInput) where
  -- The visit on the window that it is planned on, whatever that window is worth.
  unfoldable pub booked_visit : DayWindow → DataProvenance → PreviewVisit
  booked_visit window provenance = record {
    date = date;
    weekday = weekday_of date;
    window_start_minute = window.start_minute;
    window_end_minute = window.end_minute;
    is_preferred_day = has (weekday_of date) input.preferred_days;
    placement = booked;
    period_index = period;
    alternatives = [];
    window_provenance = provenance;
  }

  abbrev pub issue_of :
      BookingIssueReason → DayWindow → Bool → List String → Option PreviewBookingIssue
  issue_of reason window assumed message = some (record {
    date = date;
    reason = reason;
    window_start_minute = window.start_minute;
    window_end_minute = window.end_minute;
    window_assumed = assumed;
    message = concat (show_date date ∷ message);
  })

  -- The window that the agreement leaves of the source, or the source itself where it leaves none.
  abbrev pub window_or : Option DayWindow → DayWindow → DayWindow
  window_or none source = source
  window_or (some window) source = window

  abbrev pub narrowed_first : DayWindow → Option DayWindow
  narrowed_first source = first_window (
      effective_windows (source ∷ []) input.agreement_window_start_minute
        input.agreement_window_end_minute)

  unfoldable pub outside_hours : DayWindow → Option PreviewBookingIssue
  outside_hours window = issue_of agreement_window_outside_site_hours window false (
      " is booked with the customer, but this agreement's service window of "
      ∷ clock_text (get_or_else input.agreement_window_start_minute 0)
      ∷ "-"
      ∷ clock_text (get_or_else input.agreement_window_end_minute 0)
      ∷ " and the site's recorded hours that day of "
      ∷ clock_text window.start_minute
      ∷ "-"
      ∷ clock_text window.end_minute
      ∷ " do not overlap. The visit is planned on the site's recorded window. Widen the agreement's service window, or correct the hours."
      ∷ [])

  unfoldable pub too_short : DayWindow → Option PreviewBookingIssue
  too_short window = issue_of window_too_short_for_booked_visit window false (
      " is booked with the customer, but the site's recorded hours that day are only "
      ∷ clock_text window.start_minute
      ∷ "-"
      ∷ clock_text window.end_minute
      ∷ " — less than the "
      ∷ show input.duration_minutes
      ∷ " minutes this visit needs. The visit is planned on the recorded window as it stands. Correct the hours or shorten the visit."
      ∷ [])

  unfoldable pub site_closed : DayWindow → Option PreviewBookingIssue
  site_closed window = issue_of site_closed_on_booked_day window true (
      " is booked with the customer, but the site has no recorded opening hours on a "
      ∷ weekday_text (weekday_of date)
      ∷ ". The visit is planned on the assumed "
      ∷ clock_text assumed_day_window.start_minute
      ∷ "-"
      ∷ clock_text assumed_day_window.end_minute
      ∷ " day and marked unconfirmed. Record the site's hours for that day."
      ∷ [])

  -- Hours recorded for the weekday are used as they stand, however short.
  unfoldable pub recorded_fallback : DayWindow → Option DayWindow → Fallback
  unfolding booked_visit outside_hours too_short
  recorded_fallback best narrowed = record {
    visit = booked_visit (window_or narrowed best) (
        window_provenance_of true best.provenance input.agreement_window_start_minute
          input.agreement_window_end_minute (window_or narrowed best).start_minute
          (window_or narrowed best).end_minute);
    issue = elim narrowed [ none ↦ outside_hours best | some window ↦ too_short window ];
  }

  -- Only a weekday with no recorded hours falls back to the assumed day.
  unfoldable pub assumed_fallback : Bool → Fallback
  unfolding booked_visit site_closed
  assumed_fallback hours_unconfirmed =
      let window : DayWindow = window_or (narrowed_first assumed_day_window) assumed_day_window in
      record {
        visit = booked_visit window defaulted;
        issue = if hours_unconfirmed then none else site_closed window;
      }

  abbrev pub fallback_for : Option DayWindow → Bool → Fallback
  fallback_for none hours_unconfirmed = assumed_fallback hours_unconfirmed
  fallback_for (some best) hours_unconfirmed =
      if hours_unconfirmed
      then assumed_fallback true
      else recorded_fallback best (narrowed_first best)

  -- `bookedVisitWithoutAUsableWindow`
  unfoldable pub booked_visit_without_a_usable_window : List DayWindow → Fallback
  unfolding longest_first recorded_fallback assumed_fallback
  booked_visit_without_a_usable_window recorded =
      fallback_for (first_window (sort_by longest_first recorded)) (null input.site_windows)
