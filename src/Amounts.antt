-- ===== src/Amounts.antt =====
-- Coins (common/types/coin.type.ts) and `BigInt` on their decimal amounts.
pub mod Decimal
use safrochain_indexer.Prelude.{
  String, Option, none, some, Bool, true, false, List, [], ◌∷◌, ◌≡◌, refl, str_eq, if◌then◌else◌,
  ap, ◌∙◌, sym,
}
use safrochain_indexer.Prelude.Int.{ℤ, pos, ◌+ℤ◌, +ℤ_assoc, +ℤ_comm, +ℤ_zero}

pub record Coin : Type 0 where
  pub denom : String
  pub amount : String

-- What the services take from `BigInt`: `BigInt(text)`, none for the SyntaxError of a text that is
-- no number, and `toString()`, whose text reads back as the number.
pub record BigInts : Type 0 where
  pub parse : String → Option ℤ
  pub print : ℤ → String
  pub parse-print : (n : ℤ) → parse (print n) ≡ some n
  pub parse_zero : parse "0" ≡ some (pos 0)

abbrev pub plus : Option ℤ → Option ℤ → Option ℤ
plus none b = none
plus (some x) none = none
plus (some x) (some y) = some (x +ℤ y)

pub plus_assoc : (a b c : Option ℤ) → plus (plus a b) c ≡ plus a (plus b c)
plus_assoc none b c = refl
plus_assoc (some x) none c = refl
plus_assoc (some x) (some y) none = refl
plus_assoc (some x) (some y) (some z) = ap some (+ℤ_assoc x y z)

pub plus_comm : (a b : Option ℤ) → plus a b ≡ plus b a
plus_comm none none = refl
plus_comm none (some y) = refl
plus_comm (some x) none = refl
plus_comm (some x) (some y) = ap some (+ℤ_comm x y)

pub plus_zero : (a : Option ℤ) → plus a (some (pos 0)) ≡ a
plus_zero none = refl
plus_zero (some x) = ap some (+ℤ_zero x)

pub plus_swap : (a b c : Option ℤ) → plus (plus a b) c ≡ plus (plus a c) b
plus_swap a b c = plus_assoc a b c ∙ ap (plus a) (plus_comm b c) ∙ sym (plus_assoc a c b)

module _ (n : BigInts) where
  -- What one coin adds to the amount held in a denomination.
  abbrev pub worth : String → Coin → Option ℤ
  worth denom c = if str_eq c.denom denom then n.parse c.amount else some (pos 0)

  -- The amount of a denomination in a list of coins; none if one of its texts is no number.
  unfoldable pub sum_of : String → List Coin → Option ℤ
  sum_of denom [] = some (pos 0)
  sum_of denom (c ∷ cs) = plus (worth denom c) (sum_of denom cs)
