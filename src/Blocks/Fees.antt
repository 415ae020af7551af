-- ===== src/Blocks/Fees.antt =====
-- `getBlockStatistics`: the fees of a block's transactions, added up by denomination.
pub mod Laws
pub mod Totality
use safrochain_indexer.Prelude.{
  String, Option, none, some, Bool, true, false, List, [], ◌∷◌, ◌++◌, map, if◌then◌else◌, str_eq,
  ◌>>=◌,
}
use safrochain_indexer.Prelude.Int.{ℤ, ◌+ℤ◌}
use safrochain_indexer.Amounts.{Coin, BigInts, plus}
use mathlib.Core.Option

module _ (n : BigInts) where
  -- `(BigInt(a) + BigInt(b)).toString()`
  unfoldable pub add_amounts : String → String → Option String
  add_amounts a b = Option.map n.print (plus (n.parse a) (n.parse b))

  -- The body of `fees.forEach`: `acc.find` and the update, or `acc.push({ ...fee })`.
  unfoldable pub add_fee : List Coin → Coin → Option (List Coin)
  unfolding add_amounts
  add_fee [] fee = some (fee ∷ [])
  add_fee (c ∷ acc) fee =
      let rest = add_fee acc fee in
      if str_eq c.denom fee.denom
      then (do amount ← add_amounts c.amount fee.amount; some (record c { amount = amount } ∷ acc))
      else Option.map (λ acc'. c ∷ acc') rest

  unfoldable pub add_fees : List Coin → List Coin → Option (List Coin)
  unfolding add_fee
  add_fees acc [] = some acc
  add_fees acc (fee ∷ fees) = add_fee acc fee >>= λ acc'. add_fees acc' fees

  -- `transactions.reduce(...)` over the fee lists of the transactions.
  unfoldable pub total_fees_from : List Coin → List (List Coin) → Option (List Coin)
  unfolding add_fees
  total_fees_from acc [] = some acc
  total_fees_from acc (fees ∷ txs) = add_fees acc fees >>= λ acc'. total_fees_from acc' txs

  unfoldable pub total_fees : List (List Coin) → Option (List Coin)
  unfolding total_fees_from
  total_fees txs = total_fees_from [] txs
