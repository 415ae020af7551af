-- ===== src/Json/Text.antt =====
-- `toLowerCase`, `includes`, `startsWith`, `slice`, `split` and `replace` on strings whose
-- characters the code looks at, over code points. Case mapping is that of ASCII: the strings are
-- property names and message types.
use Prim.Native.Char.{code}
use Prim.Native.String.{String}
use safrochain_indexer.Prelude.{
  ℕ, ◌+◌, Bool, true, false, ◌&&◌, ◌||◌, List, [], ◌∷◌, leb, ◌==◌, if◌then◌else◌,
}

abbrev pub codes : String → List ℕ
codes String.[] = []
codes (String.◌∷◌ c s) = code c ∷ codes s

unfoldable pub to_lower_case : ℕ → ℕ
to_lower_case c = if leb b'A' c && leb c b'Z' then c + 32 else c

-- `text.startsWith(part)`
unfoldable pub starts_codes : List ℕ → List ℕ → Bool
starts_codes text [] = true
starts_codes [] (p ∷ part) = false
starts_codes (c ∷ text) (p ∷ part) = (c == p) && starts_codes text part

-- `text.includes(part)`
unfoldable pub includes_codes : List ℕ → List ℕ → Bool
unfolding starts_codes
includes_codes [] part = starts_codes [] part
includes_codes (c ∷ text) part = starts_codes (c ∷ text) part || includes_codes text part
