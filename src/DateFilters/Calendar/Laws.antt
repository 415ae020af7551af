-- ===== src/DateFilters/Calendar/Laws.antt =====
-- Fiscal quarters divide the year, and custom ranges are read two by two.
use safrochain_indexer.Prelude.{
  ℕ, ◌+◌, ◌/◌, ◌%◌, ◌≤◌, Bool, true, false, ◌||◌, List, [], ◌∷◌, ◌++◌, ◌==◌, ◌≡◌, ◌↔◌, refl, arith,
  ap,
}
use safrochain_indexer.Prelude.Int.{ℤ}
use safrochain_indexer.DateFilters.Texts.{trim}
use safrochain_indexer.DateFilters.Calendar.{
  Clock, get_fiscal_quarter_months, push_range, ranges_of,
}

abbrev pub is_month_of : List ℕ → ℕ → Bool
is_month_of [] m = false
is_month_of (k ∷ ks) m = k == m || is_month_of ks m

-- The quarter of a year that begins in April.
abbrev pub fiscal_quarter_of : ℕ → ℕ
fiscal_quarter_of m = (m + 8) % 12 / 3 + 1

-- The months of a fiscal quarter are exactly the months of the year that lie in it, counting
-- quarters from April: the four quarters cover each month once, and no other number is a quarter.
pub get_fiscal_quarter_months_iff :
    (quarter m : ℕ)
    → (is_month_of (get_fiscal_quarter_months quarter) m ≡ true)
      ↔ ((1 ≤ m) × (m ≤ 12) × (quarter ≡ fiscal_quarter_of m))
unfolding get_fiscal_quarter_months
get_fiscal_quarter_months_iff quarter m = (λ h. ground arith, λ (a, b, c). ground arith)

-- The texts of pairs, one after the other.
unfoldable pub flatten_pairs : List (List ℕ × List ℕ) → List (List ℕ)
flatten_pairs [] = []
flatten_pairs ((a, b) ∷ pairs) = a ∷ b ∷ flatten_pairs pairs

-- The ranges of the pairs whose two texts are valid dates.
unfoldable pub valid_ranges : Clock → List (List ℕ × List ℕ) → List (ℤ × ℤ)
valid_ranges clock [] = []
valid_ranges clock ((a, b) ∷ pairs) =
    push_range (clock.parse (trim a)) (clock.parse (trim b)) (valid_ranges clock pairs)

-- Custom ranges are read as pairs of texts: just the pairs of two valid dates are kept, in order,
-- and a text left over at the end changes nothing.
pub ranges_of-flatten_pairs :
    (clock : Clock) (pairs : List (List ℕ × List ℕ)) (odd : List ℕ)
    → (ranges_of clock (flatten_pairs pairs) ≡ valid_ranges clock pairs)
      × (ranges_of clock (flatten_pairs pairs ++ odd ∷ []) ≡ valid_ranges clock pairs)
unfolding ranges_of flatten_pairs valid_ranges
ranges_of-flatten_pairs clock [] odd = (refl, refl)
ranges_of-flatten_pairs clock ((a, b) ∷ pairs) odd =
    let (even, with_odd) = ranges_of-flatten_pairs clock pairs odd in
    (
      ap (push_range (clock.parse (trim a)) (clock.parse (trim b))) even,
      ap (push_range (clock.parse (trim a)) (clock.parse (trim b))) with_odd,
    )
