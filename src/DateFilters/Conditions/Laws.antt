-- ===== src/DateFilters/Conditions/Laws.antt =====
-- What a date filter's conditions let through.
use safrochain_indexer.Prelude.{
  ℕ, suc, ◌+◌, ◌≤◌, String, Option, none, some, true, false, ◌&&◌, List, [], ◌∷◌, all, ◌≡◌, ◌⊎◌,
  inl, inr, refl, subst, arith, and-eq-true, Bool-cases,
}
use safrochain_indexer.Prelude.Int.{ℤ, pos_part, neg_part}
use safrochain_indexer.Paging.Query.{when, when_given}
use safrochain_indexer.Transactions.Filters.Laws.{all-append_iff, all-when_given}
use safrochain_indexer.DateFilters.Texts.{parse_int}
use safrochain_indexer.DateFilters.Calendar.{
  Clock, RelativeDateUnit, calculate_relative_date, parse_custom_ranges,
}
use safrochain_indexer.DateFilters.Conditions.{
  DateFilter, DateCondition, ge, le, truthy_num, leb_ℤ, Moment, holds_at, range_conditions,
  part_conditions, set_conditions, season_conditions, range_list_conditions, apply_date_filters,
  in_some_range, both, ranges_condition, custom_condition, offset_condition, leap_by_4, leap_by_400,
  time_ge, time_le, year_is, month_is, day_is, dow_is, hour_is, minute_is, second_is,
}

abbrev pub ◌≤ℤ◌ : ℤ → ℤ → Type 0
◌≤ℤ◌ a b = pos_part a + neg_part b ≤ pos_part b + neg_part a

infix 50 ◌≤ℤ◌
leb→≤ℤ : (a b : ℤ) → leb_ℤ a b ≡ true → a ≤ℤ b
leb→≤ℤ a b h = ground arith

-- Between the two ends of one of the ranges.
abbrev pub IsInSome : ℤ → List (ℤ × ℤ) → Type 0
IsInSome t [] = ⊥
IsInSome t ((start, end) ∷ ranges) = ((start ≤ℤ t) × (t ≤ℤ end)) ⊎ IsInSome t ranges

in_some_range-IsInSome :
    (t : ℤ) (ranges : List (ℤ × ℤ)) → in_some_range t ranges ≡ true → IsInSome t ranges
unfolding in_some_range
in_some_range-IsInSome t [] h = absurd (cc)
in_some_range-IsInSome t ((start, end) ∷ ranges) h =
    elim (Bool-cases (leb_ℤ start t && leb_ℤ t end)) [
      | inl e ↦
          let (a, b) = and-eq-true (leb_ℤ start t) (leb_ℤ t end) e in
          inl (leb→≤ℤ start t a, leb→≤ℤ t end b)
      | inr e ↦ inr (in_some_range-IsInSome t ranges (ground (arith, h, e)))
    ]

module _ (clock : Clock) (f : DateFilter) (m : Moment) where
  abbrev Passes : List DateCondition → Type 0
  Passes cs = all (holds_at m) cs ≡ true

  -- The bounds that a passing row keeps: those of every range that the filter gives. Custom ranges
  -- ask nothing where none of them could be read.
  pub record IsWithin : Type 0 where
    pub after : (t : ℤ) → f.date_from ≡ some t → t ≤ℤ m.at
    pub before : (t : ℤ) → f.date_to ≡ some t → m.at ≤ℤ t
    pub day_start : (t : ℤ) → f.date_exact ≡ some t → clock.start_of_day t ≤ℤ m.at
    pub day_end : (t : ℤ) → f.date_exact ≡ some t → m.at ≤ℤ clock.end_of_day t
    pub fiscal_start : (y : ℕ) → f.fiscal_year ≡ some (suc y) → clock.midnight (suc y) 3 1 ≤ℤ m.at
    pub fiscal_end :
        (y : ℕ) → f.fiscal_year ≡ some (suc y) → m.at ≤ℤ clock.midnight (suc y + 1) 2 31
    pub untimed : (f.time_from ≡ none) × (f.time_to ≡ none)
    pub relative_start :
        (n : ℕ) (unit : RelativeDateUnit)
        → f.relative_value ≡ some (suc n)
        → f.relative_unit ≡ some unit
        → calculate_relative_date clock (suc n) unit ≤ℤ m.at
    pub in_custom :
        (s : List ℕ) (range : ℤ × ℤ) (ranges : List (ℤ × ℤ))
        → f.custom_ranges ≡ some s
        → parse_custom_ranges clock s ≡ range ∷ ranges
        → IsInSome m.at (range ∷ ranges)
    pub offset_start :
        (s : List ℕ) (days : ℤ)
        → f.date_offset ≡ some s
        → parse_int s ≡ some days
        → clock.add_days days clock.now ≤ℤ m.at

  range_parts :
      Passes (range_conditions clock f)
      → ((t : ℤ) → f.date_from ≡ some t → t ≤ℤ m.at)
        × ((t : ℤ) → f.date_to ≡ some t → m.at ≤ℤ t)
        × ((t : ℤ) → f.date_exact ≡ some t → clock.start_of_day t ≤ℤ m.at)
        × ((t : ℤ) → f.date_exact ≡ some t → m.at ≤ℤ clock.end_of_day t)
  unfolding range_conditions holds_at
  range_parts h0 =
      let (c0, h1) = (all-append_iff (holds_at m) (when_given f.date_from ge) _).0 h0 in
      let (c1, h2) = (all-append_iff (holds_at m) (when_given f.date_to le) _).0 h1 in
      let (c2, c3) =
        (all-append_iff (holds_at m) (when_given f.date_exact (λ t. ge (clock.start_of_day t))) _).0
          h2 in
      (
        λ t e. leb→≤ℤ t m.at ((all-when_given (holds_at m) f.date_from ge).0 c0 t e),
        λ t e. leb→≤ℤ m.at t ((all-when_given (holds_at m) f.date_to le).0 c1 t e),
        λ t e.
            leb→≤ℤ (clock.start_of_day t) m.at (
              (all-when_given (holds_at m) f.date_exact (λ t. ge (clock.start_of_day t))).0 c2 t e),
        λ t e.
            leb→≤ℤ m.at (clock.end_of_day t)
              ((all-when_given (holds_at m) f.date_exact (λ t. le (clock.end_of_day t))).0 c3 t e),
      )

  truthy_suc : (y : ℕ) → f.fiscal_year ≡ some (suc y) → truthy_num f.fiscal_year ≡ some (suc y)
  truthy_suc y e = rw e

  fiscal_parts :
      Passes (season_conditions clock f)
      → ((y : ℕ) → f.fiscal_year ≡ some (suc y) → clock.midnight (suc y) 3 1 ≤ℤ m.at)
        × ((y : ℕ) → f.fiscal_year ≡ some (suc y) → m.at ≤ℤ clock.midnight (suc y + 1) 2 31)
  unfolding season_conditions holds_at
  fiscal_parts h0 =
      let (c0, h1) = (all-append_iff (holds_at m) (when_given f.season _) _).0 h0 in
      let (c1, h2) =
        (all-append_iff (holds_at m)
            (when_given (truthy_num f.fiscal_year) (λ y. ge (clock.midnight y 3 1))) _).0
          h1 in
      let (c2, c3) =
        (all-append_iff (holds_at m)
            (when_given (truthy_num f.fiscal_year) (λ y. le (clock.midnight (y + 1) 2 31))) _).0
          h2 in
      (
        λ y e. leb→≤ℤ (clock.midnight (suc y) 3 1) m.at (
            (all-when_given (holds_at m) (truthy_num f.fiscal_year)
                (λ y. ge (clock.midnight y 3 1))).0
              c1 (suc y) (truthy_suc y e)),
        λ y e. leb→≤ℤ m.at (clock.midnight (suc y + 1) 2 31) (
            (all-when_given (holds_at m) (truthy_num f.fiscal_year)
                (λ y. le (clock.midnight (y + 1) 2 31))).0
              c2 (suc y) (truthy_suc y e)),
      )

  untimed_of_given :
      (o : Option String) (c : String → DateCondition)
      → ((s : String) → holds_at m (c s) ≡ false)
      → Passes (when_given o c)
      → o ≡ none
  untimed_of_given none c fails h = refl
  untimed_of_given (some s) c fails h = absurd (let no_row = fails s in ground arith)

  time_parts : Passes (part_conditions clock f) → (f.time_from ≡ none) × (f.time_to ≡ none)
  unfolding part_conditions holds_at
  time_parts h0 =
      let (c0, h1) =
        (all-append_iff (holds_at m) (when_given (truthy_num f.year) year_is) _).0 h0 in
      let (c1, h2) =
        (all-append_iff (holds_at m) (when_given (truthy_num f.month) month_is) _).0 h1 in
      let (c2, h3) = (all-append_iff (holds_at m) (when_given (truthy_num f.day) day_is) _).0 h2 in
      let (c3, h4) = (all-append_iff (holds_at m) (when_given f.day_of_week dow_is) _).0 h3 in
      let (c4, h5) = (all-append_iff (holds_at m) (when_given f.hour hour_is) _).0 h4 in
      let (c5, h6) = (all-append_iff (holds_at m) (when_given f.minute minute_is) _).0 h5 in
      let (c6, h7) = (all-append_iff (holds_at m) (when_given f.second second_is) _).0 h6 in
      let (c7, c8) = (all-append_iff (holds_at m) (when_given f.time_from time_ge) _).0 h7 in
      (
        untimed_of_given f.time_from time_ge (λ s. refl) c7,
        untimed_of_given f.time_to time_le (λ s. refl) c8,
      )

  relative_part :
      Passes (set_conditions clock f)
      → (n : ℕ) (unit : RelativeDateUnit) → f.relative_value ≡ some (suc n)
      → f.relative_unit ≡ some unit
      → calculate_relative_date clock (suc n) unit ≤ℤ m.at
  unfolding set_conditions holds_at
  relative_part h0 n unit e k =
      let (c0, rest) =
        (all-append_iff (holds_at m)
            (when_given (both (truthy_num f.relative_value) f.relative_unit)
              (λ r. ge (calculate_relative_date clock r.0 r.1)))
            _).0
          h0 in
      leb→≤ℤ _ m.at (
        (all-when_given (holds_at m) (both (truthy_num f.relative_value) f.relative_unit)
            (λ r. ge (calculate_relative_date clock r.0 r.1))).0
          c0 (suc n, unit) (rw (e, k) refl))

  in_ranges_part :
      (s : List ℕ) (range : ℤ × ℤ) (ranges : List (ℤ × ℤ))
      → Passes (ranges_condition (parse_custom_ranges clock s))
      → parse_custom_ranges clock s ≡ range ∷ ranges
      → in_some_range m.at (range ∷ ranges) ≡ true
  unfolding holds_at
  in_ranges_part s range ranges h e =
      let p : Passes (ranges_condition (range ∷ ranges)) =
        subst (λ l. Passes (ranges_condition l)) e h in
      (and-eq-true (in_some_range m.at (range ∷ ranges)) true p).0

  list_parts :
      Passes (range_list_conditions clock f)
      → ((s : List ℕ) (range : ℤ × ℤ) (ranges : List (ℤ × ℤ))
          → f.custom_ranges ≡ some s
          → parse_custom_ranges clock s ≡ range ∷ ranges
          → IsInSome m.at (range ∷ ranges))
        × ((s : List ℕ) (days : ℤ)
            → f.date_offset ≡ some s
            → parse_int s ≡ some days
            → clock.add_days days clock.now ≤ℤ m.at)
  unfolding range_list_conditions holds_at
  list_parts h0 =
      let (c0, h1) = (all-append_iff (holds_at m) (when f.leap_years_only leap_by_4) _).0 h0 in
      let (c1, h2) = (all-append_iff (holds_at m) (when f.leap_years_only leap_by_400) _).0 h1 in
      let (c2, h3) =
        (all-append_iff (holds_at m) (custom_condition clock f.custom_ranges) _).0 h2 in
      let (c3, rest) =
        (all-append_iff (holds_at m)
            (when_given f.date_offset (λ s. offset_condition clock (parse_int s))) _).0
          h3 in
      (
        λ s range ranges e k.
            in_some_range-IsInSome m.at (range ∷ ranges)
              (in_ranges_part s range ranges (rw e at c2) k),
        λ s days e k.
            let asked =
              (all-when_given (holds_at m) f.date_offset
                  (λ s. offset_condition clock (parse_int s))).0
                c3 s e in
            leb→≤ℤ _ m.at (rw k at asked),
      )

  -- A row that passes a date filter lies within every range that the filter gives: from, to, the
  -- exact day, the fiscal year, whose end is the beginning of its last day, the relative date, one
  -- of the custom ranges that could be read, and the offset from now. No row passes a filter that
  -- gives a time of the day.
  pub apply_date_filters-IsWithin : Passes (apply_date_filters clock f) → IsWithin
  unfolding apply_date_filters
  apply_date_filters-IsWithin h =
      let (range, h1) = (all-append_iff (holds_at m) (range_conditions clock f) _).0 h in
      let (parts, h2) = (all-append_iff (holds_at m) (part_conditions clock f) _).0 h1 in
      let (sets, h3) = (all-append_iff (holds_at m) (set_conditions clock f) _).0 h2 in
      let (seasons, rest) = (all-append_iff (holds_at m) (season_conditions clock f) _).0 h3 in
      let (a, b, c, d) = range_parts range in
      let (start, end) = fiscal_parts seasons in
      let (customs, offsets) = list_parts rest in
      record {
        after = a;
        before = b;
        day_start = c;
        day_end = d;
        fiscal_start = start;
        fiscal_end = end;
        untimed = time_parts parts;
        relative_start = relative_part sets;
        in_custom = customs;
        offset_start = offsets;
      }
