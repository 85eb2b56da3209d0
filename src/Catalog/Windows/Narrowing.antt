-- ===== src/Catalog/Windows/Narrowing.antt =====
-- catalog/schedule-preview.ts: when a job fits the windows that an agreement leaves.
use ultrakil_scheduling_syst.Prelude.{
  ℕ, ◌+◌, ◌≤◌, ◌↔◌, ◌⊎◌, inl, inr, Option, none, some, List, [], ◌∷◌, Any, arith, ltb,
}
use ultrakil_scheduling_syst.Prelude.Sort.{Any-sort_by}
use ultrakil_scheduling_syst.Domain.{Minute}
use ultrakil_scheduling_syst.Catalog.Windows.{
  DayWindow, narrowed, narrowed_windows, effective_windows, kept_window,
}

-- A job of this length that starts at this minute stands in the window.
abbrev pub Fits : Minute → ℕ → DayWindow → Type 0
Fits start duration window = (window.start_minute ≤ start) × (start + duration ≤ window.end_minute)

-- The agreement's bounds, where it states them.
abbrev pub IsFrom : Option Minute → Minute → Type 0
IsFrom none minute = Unit
IsFrom (some bound) minute = bound ≤ minute

abbrev pub IsUntil : Option Minute → Minute → Type 0
IsUntil none minute = Unit
IsUntil (some bound) minute = minute ≤ bound

abbrev pub FitsSome : Minute → ℕ → Option DayWindow → Type 0
FitsSome start duration none = ⊥
FitsSome start duration (some window) = Fits start duration window

module _ (start duration : ℕ) (work : 1 ≤ duration) where
  narrowed-Fits :
      (window : DayWindow) (s e : Option Minute)
      → FitsSome start duration (narrowed window s e)
        ↔ Fits start duration window × IsFrom s start × IsUntil e (start + duration)
  unfolding narrowed
  narrowed-Fits window none none = ground arith
  narrowed-Fits window none (some e) = ground arith
  narrowed-Fits window (some s) none = ground arith
  narrowed-Fits window (some s) (some e) = ground arith

  kept-Fits :
      (window : Option DayWindow) (rest : List DayWindow)
      → Any (Fits start duration) (kept_window window rest)
        ↔ FitsSome start duration window ⊎ Any (Fits start duration) rest
  kept-Fits none rest = (inr, λ m. elim m [ inl x ↦ absurd x | inr y ↦ y ])
  kept-Fits (some window) rest = (λ m. m, λ m. m)

  narrowed_windows-Fits :
      (windows : List DayWindow) (s e : Option Minute)
      → Any (Fits start duration) (narrowed_windows windows s e)
        ↔ Any (Fits start duration) windows × IsFrom s start × IsUntil e (start + duration)
  unfolding narrowed_windows
  narrowed_windows-Fits [] s e = (λ m. absurd m, λ m. absurd m.0)
  narrowed_windows-Fits (window ∷ windows) s e =
      let one = narrowed-Fits window s e in
      let kept = kept-Fits (narrowed window s e) (narrowed_windows windows s e) in
      let rest = narrowed_windows-Fits windows s e in
      (
        λ m. elim (kept.0 m) [
          | inl x ↦ let (fits, from, until) = one.0 x in (inl fits, from, until)
          | inr y ↦ let (fits, from, until) = rest.0 y in (inr fits, from, until)
        ],
        λ (m, from, until). elim m [
          | inl x ↦ kept.1 (inl (one.1 (x, from, until)))
          | inr y ↦ kept.1 (inr (rest.1 (y, from, until)))
        ],
      )

  -- A job that takes some time fits a window that is left exactly when it fits a window of the
  -- site and keeps to the bounds that the agreement states.
  pub effective_windows-Fits :
      (windows : List DayWindow) (s e : Option Minute)
      → Any (Fits start duration) (effective_windows windows s e)
        ↔ Any (Fits start duration) windows × IsFrom s start × IsUntil e (start + duration)
  unfolding effective_windows
  effective_windows-Fits windows s e =
      let sorted =
        Any-sort_by (λ a b. ltb a.start_minute b.start_minute) (Fits start duration)
          (narrowed_windows windows s e) in
      let narrow = narrowed_windows-Fits windows s e in
      (λ m. narrow.0 (sorted.0 m), λ m. sorted.1 (narrow.1 m))
