-- ===== src/Catalog/Preview/Choice/Picks.antt =====
-- catalog/schedule-preview.ts: the days that `chooseForPeriod` picks, whatever the ranking.
use ultrakil_scheduling_syst.Prelude.{
  ℕ, ◌≤◌, ◌<◌, ◌≡◌, refl, sym, ap, ◌∙◌, ◌⊎◌, inl, inr, false, some, List, [], ◌∷◌, ◌++◌, map,
  filter, length, length-append, All, All-append, All-of_In, All-In, In, In-filter, has, has-In,
  In-has, add, ltb, leb, nat_eq, arith, Bool-cases, Option-cases, Any-append_left, Any-append_right,
}
use ultrakil_scheduling_syst.Prelude.Sort.{
  sort_by, IsDistinct, append-IsDistinct, sort_by-IsDistinct, map-sort_by, In-sort_by,
  In-of_In-sort_by, All-sort_by, length-sort_by, IsAscending, sort_by-IsAscending,
}
use ultrakil_scheduling_syst.Domain.{DateOnly, VisitPlacement, booked, anchored, earliest}
use ultrakil_scheduling_syst.Catalog.Preview.{Candidate}
use ultrakil_scheduling_syst.Catalog.Preview.Choice.{
  Pick, Choice, no_choice, first_of, is_unused, nearer_to, ranks_before, take, take_anchors,
  take_earliest, chosen, choose_for_period,
}

abbrev pub dates_of : List Pick → List DateOnly
dates_of picks = map (λ pick. pick.candidate.date) picks

-- The days of a period, chosen from the candidates: one visit a day at most, in the order of the
-- dates, and as many as asked for or all the days there are.
pub record IsSelection (placeable : List Candidate) (count : ℕ) (picks : List Pick) : Type 0 where
  pub placed : All (λ pick. In pick.candidate placeable) picks
  pub not_booked : All (λ pick. ¬ (pick.placement ≡ booked)) picks
  pub one_a_day : IsDistinct (dates_of picks)
  pub in_order : IsAscending (dates_of picks)
  pub no_more : length picks ≤ count
  pub no_fewer :
      (count ≤ length picks) ⊎ All (λ candidate. In candidate.date (dates_of picks)) placeable

map-append : {A B : Type 0} (f : A → B) (xs ys : List A) → map f (xs ++ ys) ≡ map f xs ++ map f ys
map-append f [] ys = refl
map-append f (x ∷ xs) ys = ap (λ zs. f x ∷ zs) (map-append f xs ys)

first_of-In : (xs : List Candidate) (x : Candidate) → first_of xs ≡ some x → In x xs
first_of-In [] x e = absurd (cc)
first_of-In (y ∷ ys) x e = inl (cc)

module _ (placeable : List Candidate) (count : ℕ) where
  record IsSound (choice : Choice) : Type 0 where
    placed : All (λ pick. In pick.candidate placeable) choice.picks
    not_booked : All (λ pick. ¬ (pick.placement ≡ booked)) choice.picks
    used : choice.used_dates ≡ dates_of choice.picks
    one_a_day : IsDistinct choice.used_dates
    no_more : length choice.picks ≤ count

  no_choice-IsSound : IsSound no_choice
  no_choice-IsSound = record {
    placed = tt;
    not_booked = tt;
    used = refl;
    one_a_day = tt;
    no_more = omega arith;
  }

  take-IsSound :
      (candidate : Candidate) (placement : VisitPlacement) (choice : Choice)
      → In candidate placeable
      → length choice.picks < count
      → has candidate.date choice.used_dates ≡ false
      → ¬ (placement ≡ booked)
      → IsSound choice
      → IsSound (take candidate placement choice)
  unfolding take add
  take-IsSound candidate placement choice m room fresh other h =
      let grown : add candidate.date choice.used_dates ≡ choice.used_dates ++ candidate.date ∷ [] =
        rw (add, fresh) refl in
      record {
        placed = All-append _ choice.picks _ h.placed (m, tt);
        not_booked = All-append _ choice.picks _ h.not_booked (other, tt);
        used =
            grown
            ∙ ap (λ xs. xs ++ candidate.date ∷ []) h.used
            ∙ sym (map-append (λ pick. pick.candidate.date) choice.picks _);
        one_a_day = rw grown (
            append-IsDistinct choice.used_dates candidate.date
              (λ n. let t = In-has candidate.date choice.used_dates n in absurd (cc)) h.one_a_day);
        no_more = omega (
          arith,
          length-append choice.picks (record { candidate = candidate; placement = placement } ∷ []),
        );
      }

  take_anchors-IsSound :
      (anchors : List ℕ) (choice : Choice)
      → IsSound choice
      → IsSound (take_anchors placeable count anchors choice)
  unfolding take_anchors
  take_anchors-IsSound [] choice h = h
  take_anchors-IsSound (anchor ∷ anchors) choice h =
      elim (Bool-cases (leb count (length choice.picks))) [
        | inl t ↦ rw (take_anchors, t) h
        | inr f ↦
            let ranked : List Candidate =
              sort_by (nearer_to anchor) (filter (is_unused choice.used_dates) placeable) in
            elim (Option-cases (first_of ranked)) [
              | inl e ↦ rw (take_anchors, f, e) h
              | inr (best, e) ↦
                  let (m, unused) =
                    In-filter (is_unused choice.used_dates) placeable
                      (In-of_In-sort_by (nearer_to anchor) _ best (first_of-In ranked best e)) in
                  rw (take_anchors, f, e)
                    (take_anchors-IsSound anchors _ (
                      take-IsSound best anchored choice m (ground arith) (ground arith) (λ e. cc)
                        h))
            ]
      ]

  -- What the second loop leaves: no date is forgotten, and every candidate that it was given is
  -- served unless there are enough.
  record IsDone (candidates : List Candidate) (before after : Choice) : Type 0 where
    sound : IsSound after
    kept : (date : DateOnly) → In date before.used_dates → In date after.used_dates
    enough :
        (count ≤ length after.picks)
        ⊎ All (λ candidate. In candidate.date after.used_dates) candidates

  In-add : (a : DateOnly) (xs : List DateOnly) → In a (add a xs)
  unfolding add
  In-add a xs = elim (Bool-cases (has a xs)) [
    | inl t ↦ rw (add, t) (has-In a xs t)
    | inr f ↦ rw (add, f) (Any-append_right _ xs (a ∷ []) (inl refl))
  ]

  In-add_rest : (a b : DateOnly) (xs : List DateOnly) → In b xs → In b (add a xs)
  unfolding add
  In-add_rest a b xs m = elim (Bool-cases (has a xs)) [
    | inl t ↦ rw (add, t) m
    | inr f ↦ rw (add, f) (Any-append_left _ xs (a ∷ []) m)
  ]

  served_first :
      (candidate : Candidate) (candidates : List Candidate) (before after : Choice)
      → In candidate.date after.used_dates
      → IsDone candidates before after
      → IsDone (candidate ∷ candidates) before after
  served_first candidate candidates before after m h = record {
    sound = h.sound;
    kept = h.kept;
    enough = elim h.enough [ inl full ↦ inl full | inr served ↦ inr (m, served) ];
  }

  take_earliest-IsDone :
      (candidates : List Candidate) (choice : Choice)
      → All (λ candidate. In candidate placeable) candidates
      → IsSound choice
      → IsDone candidates choice (take_earliest count candidates choice)
  unfolding take_earliest take
  take_earliest-IsDone [] choice from h = record { sound = h; kept = λ date m. m; enough = inr tt }
  take_earliest-IsDone (candidate ∷ candidates) choice from h =
      elim (Bool-cases (leb count (length choice.picks))) [
        | inl t ↦
            rw (take_earliest, t)
              (record { sound = h; kept = λ date m. m; enough = inl (ground arith) })
        | inr f ↦ elim (Bool-cases (has candidate.date choice.used_dates)) [
          | inl t ↦
              let rest = take_earliest-IsDone candidates choice from.1 h in
              rw (take_earliest, f, t)
                (served_first candidate candidates choice _
                  (rest.kept candidate.date (has-In candidate.date choice.used_dates t)) rest)
          | inr g ↦
              let rest =
                take_earliest-IsDone candidates (take candidate earliest choice) from.1
                  (take-IsSound candidate earliest choice from.0 (ground arith) g (λ e. cc) h) in
              rw (take_earliest, f, g)
                (served_first candidate candidates choice _
                  (rest.kept candidate.date (In-add candidate.date choice.used_dates))
                  (record {
                    sound = rest.sound;
                    kept = λ date m.
                        rest.kept date (In-add_rest candidate.date date choice.used_dates m);
                    enough = rest.enough;
                  }))
        ]
      ]

  module _ (anchor_days : List ℕ) where
    chosen-IsDone :
        IsDone
          (sort_by ranks_before placeable)
          (take_anchors placeable count (sort_by ltb anchor_days) no_choice)
          (chosen placeable count anchor_days)
    unfolding chosen
    chosen-IsDone =
        take_earliest-IsDone (sort_by ranks_before placeable) _
          (All-sort_by ranks_before (λ candidate. In candidate placeable) placeable
            (All-of_In _ placeable (λ a m. m)))
          (take_anchors-IsSound (sort_by ltb anchor_days) no_choice no_choice-IsSound)

    -- Whatever the ranking and the anchors, the picks of a period are candidates, no two on one
    -- day, in the order of their dates, none of them a booking, at most as many as the frequency
    -- asks for, and fewer only where every day that has a candidate is used.
    pub choose_for_period-IsSelection :
        IsSelection placeable count (choose_for_period placeable count anchor_days)
    unfolding choose_for_period
    choose_for_period-IsSelection =
        let done = chosen-IsDone in
        let picks : List Pick = (chosen placeable count anchor_days).picks in
        let sorted : dates_of (choose_for_period placeable count anchor_days)
            ≡ sort_by ltb (dates_of picks) =
          map-sort_by (λ pick. pick.candidate.date) ltb picks in
        let same : dates_of picks ≡ (chosen placeable count anchor_days).used_dates =
          sym done.sound.used in
        let long : length (choose_for_period placeable count anchor_days) ≡ length picks =
          length-sort_by (λ a b. ltb a.candidate.date b.candidate.date) picks in
        record {
          placed = All-sort_by _ _ picks done.sound.placed;
          not_booked = All-sort_by _ _ picks done.sound.not_booked;
          one_a_day =
              rw sorted (sort_by-IsDistinct ltb (dates_of picks) (rw same done.sound.one_a_day));
          in_order = rw sorted (sort_by-IsAscending (dates_of picks));
          no_more = rw long done.sound.no_more;
          no_fewer = elim done.enough [
            | inl full ↦ inl (rw long full)
            | inr served ↦ inr (
                rw (sorted, same)
                  (All-of_In _ placeable (λ candidate m. In-sort_by ltb _ candidate.date (
                    All-In _ (sort_by ranks_before placeable) served
                      (In-sort_by ranks_before placeable candidate m)))))
          ];
        }
