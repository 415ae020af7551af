-- ===== src/Blocks/Fees/Totality.antt =====
-- Adding up fees succeeds where every amount is a number.
use safrochain_indexer.Prelude.{
  String, some, List, [], ◌∷◌, ◌≡◌, refl, All, Bool-cases, inl, inr, str_eq,
}
use safrochain_indexer.Prelude.Int.{ℤ, ◌+ℤ◌}
use safrochain_indexer.Amounts.{Coin, BigInts}
use safrochain_indexer.Blocks.Fees.{add_amounts, add_fee, add_fees, total_fees_from, total_fees}

module _ (n : BigInts) where
  -- The amount of a coin is a number.
  abbrev pub IsAmount : Coin → Type 0
  IsAmount c = (z : ℤ) × (n.parse c.amount ≡ some z)

  add_amounts-IsAmount :
      (c fee : Coin)
      → IsAmount c
      → IsAmount fee
      → (s : String) × (add_amounts n c.amount fee.amount ≡ some s)
        × IsAmount (record c { amount = s })
  unfolding add_amounts
  add_amounts-IsAmount c fee (x, p) (y, q) =
      (n.print (x +ℤ y), rw (p, q) refl, (x +ℤ y, n.parse-print (x +ℤ y)))

  pub add_fee-IsAmount :
      (acc : List Coin) (fee : Coin)
      → All IsAmount acc
      → IsAmount fee
      → (acc' : List Coin) × (add_fee n acc fee ≡ some acc') × All IsAmount acc'
  unfolding add_fee
  add_fee-IsAmount [] fee a b = (fee ∷ [], refl, (b, tt))
  add_fee-IsAmount (c ∷ acc) fee (h, a) b = elim (Bool-cases (str_eq c.denom fee.denom)) [
    | inl e ↦
        let (s, added, good) = add_amounts-IsAmount c fee h b in
        (record c { amount = s } ∷ acc, rw (e, added) refl, (good, a))
    | inr e ↦
        let (rest, found, good) = add_fee-IsAmount acc fee a b in
        (c ∷ rest, rw (e, found) refl, (h, good))
  ]

  add_fees-IsAmount :
      (acc fees : List Coin)
      → All IsAmount acc
      → All IsAmount fees
      → (acc' : List Coin) × (add_fees n acc fees ≡ some acc') × All IsAmount acc'
  unfolding add_fees
  add_fees-IsAmount acc [] a b = (acc, refl, a)
  add_fees-IsAmount acc (fee ∷ fees) a (h, b) =
      let (next, added, good) = add_fee-IsAmount acc fee a h in
      let (last, found, all_good) = add_fees-IsAmount next fees good b in
      (last, rw added found, all_good)

  total_fees_from-IsAmount :
      (acc : List Coin) (txs : List (List Coin))
      → All IsAmount acc
      → All (All IsAmount) txs
      → (res : List Coin) × (total_fees_from n acc txs ≡ some res) × All IsAmount res
  unfolding total_fees_from
  total_fees_from-IsAmount acc [] a b = (acc, refl, a)
  total_fees_from-IsAmount acc (fees ∷ txs) a (h, b) =
      let (next, added, good) = add_fees-IsAmount acc fees a h in
      let (last, found, all_good) = total_fees_from-IsAmount next txs good b in
      (last, rw added found, all_good)

  -- If every amount of a block's fees is a number, the totals are computed without an error, and
  -- their amounts are numbers too.
  pub total_fees-IsAmount :
      (txs : List (List Coin))
      → All (All IsAmount) txs
      → (res : List Coin) × (total_fees n txs ≡ some res) × All IsAmount res
  unfolding total_fees
  total_fees-IsAmount txs h = total_fees_from-IsAmount [] txs tt h
