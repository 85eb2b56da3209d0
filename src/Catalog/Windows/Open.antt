-- ===== src/Catalog/Windows/Open.antt =====
-- catalog/schedule-preview.ts: when a site is open, with its hours recorded or not.
use ultrakil_scheduling_syst.Prelude.{ℕ, ◌↔◌, inl, inr, List, [], ◌∷◌, Any, null, if◌then◌else◌}
use ultrakil_scheduling_syst.Domain.{Minute, Weekday}
use ultrakil_scheduling_syst.Catalog.Windows.{SiteWindow, assumed_day_window, recorded_windows}
use ultrakil_scheduling_syst.Catalog.Windows.Narrowing.{Fits}
use ultrakil_scheduling_syst.Catalog.Windows.Recorded.{HasHours, recorded_windows_iff}

-- A job that starts then ends within opening hours: those recorded for the weekday, or the assumed
-- day where the site has no hours at all.
abbrev pub IsOpenFor : List SiteWindow → Weekday → Minute → ℕ → Type 0
IsOpenFor [] weekday start duration = Fits start duration assumed_day_window
IsOpenFor (site ∷ sites) weekday start duration =
    HasHours (Fits start duration) (site ∷ sites) weekday

pub IsOpenFor-iff :
    (sites : List SiteWindow) (weekday : Weekday) (start : Minute) (duration : ℕ)
    → Any
        (Fits start duration)
        (if null sites then assumed_day_window ∷ [] else recorded_windows sites weekday)
      ↔ IsOpenFor sites weekday start duration
IsOpenFor-iff [] weekday start duration = (λ m. elim m [ inl x ↦ x | inr y ↦ absurd y ], inl)
IsOpenFor-iff (site ∷ sites) weekday start duration =
    recorded_windows_iff (Fits start duration) weekday (site ∷ sites)
