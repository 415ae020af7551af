-- ===== src/Blocks/Tests.antt =====
-- The block service on a small table.
use safrochain_indexer.Prelude.{
  All, ℕ, ◌+◌, String, none, some, false, List, [], ◌∷◌, ◌≡◌, refl, arith, keep, all,
}
use safrochain_indexer.Prelude.Int.{pos, ◌+ℤ◌}
use safrochain_indexer.Prelude.Sets.{Distinct}
use safrochain_indexer.Amounts.{Coin, sum_of}
use safrochain_indexer.Amounts.Decimal.{decimal, parse_int, print_int}
use safrochain_indexer.Paging.Query.{SelectQuery, SortOrder, cut, skip}
use safrochain_indexer.Paging.Cursor.{follow, IsDescending}
use safrochain_indexer.DateFilters.Calendar.{Clock}
use safrochain_indexer.DateFilters.Conditions.{
  DateFilter, Moment, holds_at, range_conditions, part_conditions, set_conditions,
  season_conditions, range_list_conditions, apply_date_filters,
}
use safrochain_indexer.Entities.{Block}
use safrochain_indexer.Blocks.Fees.{add_amounts, add_fee, add_fees, total_fees_from, total_fees}
use safrochain_indexer.Blocks.Fees.Totality.{IsAmount}
use safrochain_indexer.Blocks.Fees.Laws.{denoms, all_coins, total_fees_lem}
use safrochain_indexer.Blocks.Listing.{
  BlockList, BlockCondition, BlockColumn, block_filters, block_holds,
}
use safrochain_indexer.Blocks.Listing.Laws.{serve_blocks, get_blocks-follow}

abbrev coin : String → String → Coin
coin denom amount = record { denom = denom; amount = amount }

abbrev fees : List (List Coin)
fees = (coin "usaf" "7" ∷ coin "uatom" "1" ∷ []) ∷ (coin "usaf" "35" ∷ []) ∷ []

abbrev totals : List Coin
totals = coin "usaf" "42" ∷ coin "uatom" "1" ∷ []

fees_added : total_fees decimal fees ≡ some totals
unfolding total_fees total_fees_from add_fees add_fee add_amounts parse_int print_int ◌+ℤ◌
fees_added = refl

no_number_throws : total_fees decimal ((coin "usaf" "7" ∷ coin "usaf" "x" ∷ []) ∷ []) ≡ none
unfolding total_fees total_fees_from add_fees add_fee add_amounts parse_int print_int
no_number_throws = refl

total_fees_example :
    Distinct (denoms totals)
    × ((d : String) → sum_of decimal d totals ≡ sum_of decimal d (all_coins fees))
total_fees_example = total_fees_lem decimal fees totals fees_added

abbrev clock : Clock
clock = record {
  now = pos 9;
  parse = λ s. none;
  start_of_day = λ t. t;
  end_of_day = λ t. t;
  set_back = λ part n t. t;
  add_days = λ d t. t;
  midnight = λ y m d. pos (y + m + d);
}

abbrev no_dates : DateFilter
no_dates = record {
  date_from = some (pos 2);
  date_to = none;
  date_exact = none;
  year = none;
  month = none;
  day = none;
  day_of_week = none;
  hour = none;
  minute = none;
  second = none;
  time_from = none;
  time_to = none;
  relative_value = none;
  relative_unit = none;
  business_days_only = false;
  weekdays = none;
  months = none;
  years = none;
  quarters = none;
  season = none;
  fiscal_year = none;
  fiscal_quarter = none;
  leap_years_only = false;
  custom_ranges = none;
  date_offset = none;
  valid_dates_only = false;
}

abbrev block_at : ℕ → Block
block_at h = record {
  height = h;
  hash = "b";
  num_txs = 2;
  total_gas = 10;
  proposer_address = none;
  timestamp = h;
}

abbrev moment : Block → Moment
moment b = record {
  at = pos b.timestamp;
  year = 1970;
  month = 1;
  day = 1;
  dow = 4;
  hour = 0;
  minute = 0;
  second = 0;
  quarter = 1;
}

abbrev sorted : BlockColumn → SortOrder → List Block
sorted by order = block_at 4 ∷ block_at 3 ∷ block_at 2 ∷ block_at 1 ∷ []

abbrev get_many : SelectQuery BlockCondition BlockColumn → List Block
get_many q = cut q.limit (
    skip q.offset
      (keep (λ b. all (λ c. block_holds moment c b) q.conditions) (sorted q.order_by q.order)))

abbrev two_by_two : BlockList
two_by_two = record {
  proposer = none;
  min_txs = some 1;
  max_txs = none;
  dates = no_dates;
  limit = some (pos 2);
  cursor = none;
}

sorted-IsDescending : IsDescending (λ b. b.height) (sorted BlockColumn.height SortOrder.desc)
sorted-IsDescending = ground arith

get_blocks-follow_example :
    follow (λ b. b.height) (serve_blocks get_many clock two_by_two) 4 none
    ≡ some (block_at 4 ∷ block_at 3 ∷ block_at 2 ∷ [])
unfolding block_filters block_holds holds_at apply_date_filters range_conditions part_conditions
    set_conditions season_conditions range_list_conditions
get_blocks-follow_example =
    get_blocks-follow moment sorted get_many (λ q. refl) clock two_by_two 4 sorted-IsDescending
      (omega arith)

numbers : All (All (IsAmount decimal)) fees
unfolding parse_int
numbers = (((pos 7, refl), ((pos 1, refl), tt)), (((pos 35, refl), tt), tt))
