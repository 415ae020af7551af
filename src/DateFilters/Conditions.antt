-- ===== src/DateFilters/Conditions.antt =====
-- `applyDateFilters`: the conditions on one timestamp column that a date filter adds to a query, in
-- the order of the source. The filter's date texts stand as their time values; an absent or empty
-- text and a number 0 count as not given where the source tests by truth.
pub mod Laws
use safrochain_indexer.Prelude.{
  ℕ, zero, suc, String, ◌+◌, Option, none, some, Bool, true, false, List, [], ◌∷◌, ◌++◌, map,
  if◌then◌else◌, not, ◌&&◌, ◌||◌, ◌%◌, leb, ◌==◌,
}
use safrochain_indexer.Prelude.Int.{ℤ, pos, pos_part, neg_part}
use safrochain_indexer.Paging.Query.{when, when_given}
use safrochain_indexer.DateFilters.Texts.{parse_int, parse_int_list}
use safrochain_indexer.DateFilters.Calendar.{
  Clock, RelativeDateUnit, calculate_relative_date, get_season_months, get_fiscal_quarter_months,
  parse_custom_ranges,
}

pub record DateFilter : Type 0 where
  pub date_from : Option ℤ
  pub date_to : Option ℤ
  pub date_exact : Option ℤ
  pub year : Option ℕ
  pub month : Option ℕ
  pub day : Option ℕ
  pub day_of_week : Option ℕ
  pub hour : Option ℕ
  pub minute : Option ℕ
  pub second : Option ℕ
  pub time_from : Option String
  pub time_to : Option String
  pub relative_value : Option ℕ
  pub relative_unit : Option RelativeDateUnit
  pub business_days_only : Bool
  pub weekdays : Option (List ℕ)
  pub months : Option (List ℕ)
  pub years : Option (List ℕ)
  pub quarters : Option (List ℕ)
  pub season : Option (List ℕ)
  pub fiscal_year : Option ℕ
  pub fiscal_quarter : Option ℕ
  pub leap_years_only : Bool
  pub custom_ranges : Option (List ℕ)
  pub date_offset : Option (List ℕ)
  pub valid_dates_only : Bool

-- The texts handed to `andWhere`, one constructor for each, with their parameters.
pub data DateCondition : Type 0 where
  ge le : ℤ → DateCondition
  year_is month_is day_is dow_is hour_is minute_is second_is : ℕ → DateCondition
  time_ge time_le : String → DateCondition
  business_day leap_by_4 leap_by_400 : DateCondition
  dow_in month_in year_in quarter_in : List (Option ℤ) → DateCondition
  in_ranges : List (ℤ × ℤ) → DateCondition
  not_null not_epoch : DateCondition
  ge_invalid : DateCondition

-- A number that counts as given: not 0.
abbrev pub truthy_num : Option ℕ → Option ℕ
truthy_num none = none
truthy_num (some zero) = none
truthy_num (some (suc n)) = some (suc n)

abbrev pub as_numbers : List ℕ → List (Option ℤ)
as_numbers ns = map (λ n. some (pos n)) ns

abbrev pub both {ℓ κ} : {A : Type ℓ} {B : Type κ} → Option A → Option B → Option (A × B)
both (some a) (some b) = some (a, b)
both _ _ = none

abbrev pub ranges_condition : List (ℤ × ℤ) → List DateCondition
ranges_condition [] = []
ranges_condition (r ∷ ranges) = in_ranges (r ∷ ranges) ∷ []

abbrev pub custom_condition : Clock → Option (List ℕ) → List DateCondition
custom_condition clock none = []
custom_condition clock (some s) = ranges_condition (parse_custom_ranges clock s)

-- From the day that many days from now on; NaN makes an invalid date.
abbrev pub offset_condition : Clock → Option ℤ → DateCondition
offset_condition clock none = ge_invalid
offset_condition clock (some days) = ge (clock.add_days days clock.now)

module _ (clock : Clock) (f : DateFilter) where
  -- Ranges and the exact day.
  unfoldable pub range_conditions : List DateCondition
  range_conditions =
      when_given f.date_from ge
      ++ (when_given f.date_to le
          ++ (when_given f.date_exact (λ t. ge (clock.start_of_day t))
              ++ when_given f.date_exact (λ t. le (clock.end_of_day t))))

  -- Year, month, day, day of the week, and the time of the day.
  unfoldable pub part_conditions : List DateCondition
  part_conditions =
      when_given (truthy_num f.year) year_is
      ++ (when_given (truthy_num f.month) month_is
          ++ (when_given (truthy_num f.day) day_is
              ++ (when_given f.day_of_week dow_is
                  ++ (when_given f.hour hour_is
                      ++ (when_given f.minute minute_is
                          ++ (when_given f.second second_is
                              ++ (when_given f.time_from time_ge
                                  ++ when_given f.time_to time_le)))))))

  -- The relative date, business days, and the comma lists.
  unfoldable pub set_conditions : List DateCondition
  set_conditions =
      when_given (both (truthy_num f.relative_value) f.relative_unit)
        (λ r. ge (calculate_relative_date clock r.0 r.1))
      ++ (when f.business_days_only business_day
          ++ (when_given f.weekdays (λ s. dow_in (parse_int_list s))
              ++ (when_given f.months (λ s. month_in (parse_int_list s))
                  ++ (when_given f.years (λ s. year_in (parse_int_list s))
                      ++ when_given f.quarters (λ s. quarter_in (parse_int_list s))))))

  -- Seasons, and the fiscal year from the first of April to the thirty-first of March, and
  -- fiscal quarters.
  unfoldable pub season_conditions : List DateCondition
  season_conditions =
      when_given f.season (λ s. month_in (as_numbers (get_season_months s)))
      ++ (when_given (truthy_num f.fiscal_year) (λ y. ge (clock.midnight y 3 1))
          ++ (when_given (truthy_num f.fiscal_year) (λ y. le (clock.midnight (y + 1) 2 31))
              ++ when_given (truthy_num f.fiscal_quarter)
                  (λ q. month_in (as_numbers (get_fiscal_quarter_months q)))))

  -- Leap years, custom ranges, the offset from now, and valid dates.
  unfoldable pub range_list_conditions : List DateCondition
  range_list_conditions =
      when f.leap_years_only leap_by_4
      ++ (when f.leap_years_only leap_by_400
          ++ (custom_condition clock f.custom_ranges
              ++ (when_given f.date_offset (λ s. offset_condition clock (parse_int s))
                  ++ (when f.valid_dates_only not_null ++ when f.valid_dates_only not_epoch))))

  unfoldable pub apply_date_filters : List DateCondition
  apply_date_filters =
      range_conditions
      ++ (part_conditions ++ (set_conditions ++ (season_conditions ++ range_list_conditions)))

-- A column's value, as PostgreSQL's EXTRACT and comparisons see it.
pub record Moment : Type 0 where
  pub at : ℤ
  pub year : ℕ
  pub month : ℕ
  pub day : ℕ
  pub dow : ℕ
  pub hour : ℕ
  pub minute : ℕ
  pub second : ℕ
  pub quarter : ℕ

abbrev pub leb_ℤ : ℤ → ℤ → Bool
leb_ℤ a b = leb (pos_part a + neg_part b) (pos_part b + neg_part a)

-- `value IN (...)`, where NaN equals nothing.
unfoldable pub in_numbers : ℕ → List (Option ℤ) → Bool
in_numbers n [] = false
in_numbers n (some (pos k) ∷ ks) = n == k || in_numbers n ks
in_numbers n (k ∷ ks) = in_numbers n ks

unfoldable pub in_some_range : ℤ → List (ℤ × ℤ) → Bool
in_some_range t [] = false
in_some_range t ((start, end) ∷ ranges) = (leb_ℤ start t && leb_ℤ t end) || in_some_range t ranges

-- What SQL makes of each condition on a column's value. `TIME(column)` is a syntax error of
-- PostgreSQL and an invalid date is no timestamp: the query fails and no row passes.
unfoldable pub holds_at : Moment → DateCondition → Bool
holds_at m (ge t) = leb_ℤ t m.at
holds_at m (le t) = leb_ℤ m.at t
holds_at m (year_is n) = m.year == n
holds_at m (month_is n) = m.month == n
holds_at m (day_is n) = m.day == n
holds_at m (dow_is n) = m.dow == n
holds_at m (hour_is n) = m.hour == n
holds_at m (minute_is n) = m.minute == n
holds_at m (second_is n) = m.second == n
holds_at m (time_ge s) = false
holds_at m (time_le s) = false
holds_at m business_day = not (m.dow == 0 || m.dow == 6)
holds_at m leap_by_4 = m.year % 4 == 0
holds_at m leap_by_400 = not (m.year % 100 == 0) || m.year % 400 == 0
holds_at m (dow_in ns) = in_numbers m.dow ns
holds_at m (month_in ns) = in_numbers m.month ns
holds_at m (year_in ns) = in_numbers m.year ns
holds_at m (quarter_in ns) = in_numbers m.quarter ns
holds_at m (in_ranges ranges) = in_some_range m.at ranges
holds_at m not_null = true
holds_at m not_epoch = not (leb_ℤ m.at (pos 0) && leb_ℤ (pos 0) m.at)
holds_at m ge_invalid = false
