-- ===== src/DateFilters/Tests.antt =====
-- Date filters on concrete texts and times.
use safrochain_indexer.Prelude.{ℕ, ◌+◌, ◌*◌, none, some, true, false, List, [], ◌∷◌, ◌≡◌, refl, all}
use safrochain_indexer.Prelude.Int.{ℤ, pos}
use safrochain_indexer.Json.Text.{codes, to_lower_case}
use safrochain_indexer.DateFilters.Texts.{
  split_commas, trim_start, trim, leading_digits, parse_int, parse_int_list, lower, same_codes,
}
use safrochain_indexer.DateFilters.Calendar.{Clock, get_season_months}
use safrochain_indexer.DateFilters.Conditions.{
  DateFilter, Moment, holds_at, range_conditions, part_conditions, set_conditions,
  season_conditions, range_list_conditions, apply_date_filters,
}
use safrochain_indexer.DateFilters.Conditions.Laws.{IsWithin, apply_date_filters-IsWithin}

numbers_of_list : parse_int_list (codes "1, 3,x") ≡ some (pos 1) ∷ some (pos 3) ∷ none ∷ []
unfolding parse_int_list split_commas trim trim_start parse_int leading_digits
numbers_of_list = refl

autumn_months : get_season_months (codes "Autumn") ≡ 9 ∷ 10 ∷ 11 ∷ []
unfolding get_season_months same_codes lower to_lower_case
autumn_months = refl

-- A clock of years of 400 days and months of 32.
abbrev clock : Clock
clock = record {
  now = pos 9;
  parse = λ s. parse_int s;
  start_of_day = λ t. t;
  end_of_day = λ t. t;
  set_back = λ part n t. t;
  add_days = λ d t. t;
  midnight = λ y m d. pos (y * 400 + m * 32 + d);
}

abbrev date_pairs : List (List ℕ × List ℕ)
date_pairs = (codes "1", codes "5") ∷ (codes "x", codes "7") ∷ []

abbrev fiscal_2023 : DateFilter
fiscal_2023 = record {
  date_from = some (pos 5);
  date_to = none;
  date_exact = none;
  year = none;
  month = none;
  day = none;
  day_of_week = none;
  hour = none;
  minute = none;
  second = none;
  time_from = none;
  time_to = none;
  relative_value = none;
  relative_unit = none;
  business_days_only = false;
  weekdays = none;
  months = none;
  years = none;
  quarters = none;
  season = none;
  fiscal_year = some 2023;
  fiscal_quarter = none;
  leap_years_only = false;
  custom_ranges = none;
  date_offset = none;
  valid_dates_only = false;
}

abbrev moment_at : ℤ → Moment
moment_at t = record {
  at = t;
  year = 2023;
  month = 4;
  day = 1;
  dow = 4;
  hour = 0;
  minute = 0;
  second = 0;
  quarter = 2;
}

passes_fiscal :
    all (holds_at (moment_at (pos 809300))) (apply_date_filters clock fiscal_2023) ≡ true
unfolding holds_at apply_date_filters range_conditions part_conditions set_conditions
    season_conditions range_list_conditions
passes_fiscal = refl

apply_date_filters-IsWithin_example : IsWithin clock fiscal_2023 (moment_at (pos 809300))
apply_date_filters-IsWithin_example =
    apply_date_filters-IsWithin clock fiscal_2023 (moment_at (pos 809300)) passes_fiscal
