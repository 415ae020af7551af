-- ===== src/DateFilters/Calendar.antt =====
-- `getSeasonMonths`, `getFiscalQuarterMonths`, `parseCustomRanges` and `calculateRelativeDate`, with
-- what the code takes from `Date` and the clock as a parameter. Times are time values in
-- milliseconds; a setter like `setDate` works in the server's time zone, which is left open.
pub mod Laws
use safrochain_indexer.Prelude.{
  ℕ, ◌*◌, Option, none, some, Bool, ◌||◌, List, [], ◌∷◌, ◌==◌, if◌then◌else◌,
}
use safrochain_indexer.Prelude.Int.{ℤ}
use safrochain_indexer.Json.Text.{codes}
use safrochain_indexer.DateFilters.Texts.{split_commas, trim, same_codes, lower}

-- The parts of a `Date` that its setters move.
pub data DatePart : Type 0 where
  minutes hours day_of_month month full_year : DatePart

pub data RelativeDateUnit : Type 0 where
  minutes hours days weeks months years : RelativeDateUnit

pub record Clock : Type 0 where
  -- `new Date()`
  pub now : ℤ
  -- `new Date(text)`, none if it is invalid
  pub parse : List ℕ → Option ℤ
  -- `setHours(0, 0, 0, 0)` and `setHours(23, 59, 59, 999)`
  pub start_of_day : ℤ → ℤ
  pub end_of_day : ℤ → ℤ
  -- `date.setX(date.getX() - value)`
  pub set_back : DatePart → ℕ → ℤ → ℤ
  -- `date.setDate(date.getDate() + days)`
  pub add_days : ℤ → ℤ → ℤ
  -- `new Date(year, month, day)`, with months from 0
  pub midnight : ℕ → ℕ → ℕ → ℤ

unfoldable pub calculate_relative_date : Clock → ℕ → RelativeDateUnit → ℤ
calculate_relative_date clock value RelativeDateUnit.minutes =
    clock.set_back DatePart.minutes value clock.now
calculate_relative_date clock value RelativeDateUnit.hours =
    clock.set_back DatePart.hours value clock.now
calculate_relative_date clock value RelativeDateUnit.days =
    clock.set_back DatePart.day_of_month value clock.now
calculate_relative_date clock value RelativeDateUnit.weeks =
    clock.set_back DatePart.day_of_month (value * 7) clock.now
calculate_relative_date clock value RelativeDateUnit.months =
    clock.set_back DatePart.month value clock.now
calculate_relative_date clock value RelativeDateUnit.years =
    clock.set_back DatePart.full_year value clock.now

unfoldable pub get_season_months : List ℕ → List ℕ
unfolding same_codes lower
get_season_months season =
    let name = lower season in
    if same_codes name (codes "spring")
    then 3 ∷ 4 ∷ 5 ∷ []
    else if same_codes name (codes "summer")
    then 6 ∷ 7 ∷ 8 ∷ []
    else if same_codes name (codes "fall") || same_codes name (codes "autumn")
    then 9 ∷ 10 ∷ 11 ∷ []
    else if same_codes name (codes "winter")
    then 12 ∷ 1 ∷ 2 ∷ []
    else []

unfoldable pub get_fiscal_quarter_months : ℕ → List ℕ
get_fiscal_quarter_months quarter =
    if quarter == 1
    then 4 ∷ 5 ∷ 6 ∷ []
    else if quarter == 2
    then 7 ∷ 8 ∷ 9 ∷ []
    else if quarter == 3
    then 10 ∷ 11 ∷ 12 ∷ []
    else if quarter == 4
    then 1 ∷ 2 ∷ 3 ∷ []
    else []

-- A range is kept if both its dates are valid.
abbrev pub push_range : Option ℤ → Option ℤ → List (ℤ × ℤ) → List (ℤ × ℤ)
push_range (some start) (some end) ranges = (start, end) ∷ ranges
push_range _ _ ranges = ranges

-- The loop of `parseCustomRanges`, two texts at a time; a last odd one is dropped.
unfoldable pub ranges_of : Clock → List (List ℕ) → List (ℤ × ℤ)
unfolding trim
ranges_of clock [] = []
ranges_of clock (a ∷ []) = []
ranges_of clock (a ∷ b ∷ parts) =
    push_range (clock.parse (trim a)) (clock.parse (trim b)) (ranges_of clock parts)

unfoldable pub parse_custom_ranges : Clock → List ℕ → List (ℤ × ℤ)
unfolding split_commas ranges_of
parse_custom_ranges clock custom_ranges = ranges_of clock (split_commas custom_ranges)
