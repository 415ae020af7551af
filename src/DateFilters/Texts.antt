-- ===== src/DateFilters/Texts.antt =====
-- Comma lists, `parseInt`, `trim` and `toLowerCase` on a filter's texts, over code points. The
-- white space is that of ASCII, and a hexadecimal `0x` prefix, which `parseInt` also reads, is not.
use safrochain_indexer.Prelude.{
  ℕ, suc, ◌+◌, ◌-◌, ◌*◌, Option, none, some, Bool, true, false, ◌&&◌, ◌||◌, List, [], ◌∷◌, map, leb,
  ◌==◌, if◌then◌else◌,
}
use safrochain_indexer.Prelude.Int.{ℤ, pos, negsuc}
use safrochain_indexer.Json.Text.{to_lower_case}
use mathlib.Core.List.{reverse}

abbrev pub cons_head : ℕ → List (List ℕ) → List (List ℕ)
cons_head c [] = []
cons_head c (s ∷ parts) = (c ∷ s) ∷ parts

-- `text.split(",")`
unfoldable pub split_commas : List ℕ → List (List ℕ)
split_commas [] = [] ∷ []
split_commas (c ∷ s) = if c == b',' then [] ∷ split_commas s else cons_head c (split_commas s)

abbrev pub is_space : ℕ → Bool
is_space c = c == 32 || (leb 9 c && leb c 13)

unfoldable pub trim_start : List ℕ → List ℕ
trim_start [] = []
trim_start (c ∷ s) = if is_space c then trim_start s else c ∷ s

-- `text.trim()`
unfoldable pub trim : List ℕ → List ℕ
unfolding trim_start
trim s = reverse (trim_start (reverse (trim_start s)))

abbrev pub is_digit : ℕ → Bool
is_digit c = leb 48 c && leb c 57

-- The digits that a text starts with, added to what was read; a first digit makes it a number.
unfoldable pub leading_digits : Option ℕ → List ℕ → Option ℕ
leading_digits read [] = read
leading_digits none (c ∷ s) = if is_digit c then leading_digits (some (c - 48)) s else none
leading_digits (some v) (c ∷ s) =
    if is_digit c then leading_digits (some (v * 10 + (c - 48))) s else some v

abbrev pub signed : Bool → Option ℕ → Option ℤ
signed negative none = none
signed true (some (suc n)) = some (negsuc n)
signed _ (some n) = some (pos n)

-- `parseInt` of a trimmed text; none is NaN.
unfoldable pub parse_int : List ℕ → Option ℤ
unfolding leading_digits
parse_int [] = none
parse_int (c ∷ s) =
    if c == b'-'
    then signed true (leading_digits none s)
    else if c == b'+'
    then signed false (leading_digits none s)
    else signed false (leading_digits none (c ∷ s))

-- `text.split(",").map((d) => parseInt(d.trim()))`
unfoldable pub parse_int_list : List ℕ → List (Option ℤ)
unfolding split_commas trim parse_int
parse_int_list s = map (λ part. parse_int (trim part)) (split_commas s)

unfoldable pub same_codes : List ℕ → List ℕ → Bool
same_codes [] [] = true
same_codes (a ∷ s) (b ∷ t) = (a == b) && same_codes s t
same_codes _ _ = false

unfoldable pub lower : List ℕ → List ℕ
unfolding to_lower_case
lower s = map to_lower_case s
