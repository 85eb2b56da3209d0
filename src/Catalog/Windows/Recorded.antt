-- ===== src/Catalog/Windows/Recorded.antt =====
-- catalog/schedule-preview.ts: the hours of a weekday.
use ultrakil_scheduling_syst.Prelude.{
  ◌≡◌, ◌↔◌, inl, inr, List, [], ◌∷◌, map, Any, filter, lookup, lookup-group_onto, ◌==◌, Bool-cases,
  true,
}
use ultrakil_scheduling_syst.Domain.{Weekday, weekday_eq}
use ultrakil_scheduling_syst.Catalog.Windows.{DayWindow, SiteWindow, recorded_windows}

-- Some window of the site on this weekday has the property.
abbrev pub HasHours : (DayWindow → Type 0) → List SiteWindow → Weekday → Type 0
HasHours P site_windows weekday =
    Any (λ site. (site.weekday ≡ weekday) × P site.window) site_windows

module _ (P : DayWindow → Type 0) (weekday : Weekday) where
  filtered_iff :
      (sites : List SiteWindow)
      → Any P (map (λ site. site.window) (filter (λ site. site.weekday == weekday) sites))
        ↔ HasHours P sites weekday
  filtered_iff [] = (λ m. m, λ m. m)
  filtered_iff (site ∷ sites) =
      let rest = filtered_iff sites in
      elim (Bool-cases (site.weekday == weekday)) [
        | inl t ↦
            let same : site.weekday ≡ weekday = (weekday_eq.beq_iff site.weekday weekday).0 t in
            (
              λ m. elim (rw t at m) [ inl x ↦ inl (same, x) | inr y ↦ inr (rest.0 y) ],
              λ m. rw t (elim m [ inl x ↦ inl x.1 | inr y ↦ inr (rest.1 y) ]),
            )
        | inr f ↦ (
          λ m. inr (rest.0 (rw f at m)),
          λ m. rw f (elim m [
            | inl x ↦
                let t : (site.weekday == weekday) ≡ true =
                  (weekday_eq.beq_iff site.weekday weekday).1 x.0 in
                absurd (cc)
            | inr y ↦ rest.1 y
          ]),
        )
      ]

  pub recorded_windows_iff :
      (sites : List SiteWindow) → Any P (recorded_windows sites weekday) ↔ HasHours P sites weekday
  unfolding recorded_windows lookup
  recorded_windows_iff sites =
      rw (lookup-group_onto (λ site. site.weekday) sites [] weekday) (filtered_iff sites)
