-- ===== src/Blocks/Fees/Laws.antt =====
-- A block's total fees hold what its transactions paid.
use safrochain_indexer.Prelude.{
  String, some, Bool, true, false, List, [], ◌∷◌, ◌++◌, map, str_eq, ◌≡◌, refl, ap, sym, ◌∙◌, arith,
  Bool-cases, inl, inr, eq_iff, bind-eq-some, map-eq-some, some_inj, subst, ◌||◌,
}
use safrochain_indexer.Prelude.Sets.{includes, Distinct}
use safrochain_indexer.Prelude.Int.{pos}
use safrochain_indexer.Amounts.{
  Coin, BigInts, plus, plus_assoc, plus_comm, plus_zero, plus_swap, worth, sum_of,
}
use safrochain_indexer.Blocks.Fees.{add_amounts, add_fee, add_fees, total_fees_from, total_fees}

abbrev pub denoms : List Coin → List String
denoms cs = map (λ c. c.denom) cs

-- All coins of a block's transactions, in order.
unfoldable pub all_coins : List (List Coin) → List Coin
all_coins [] = []
all_coins (fees ∷ txs) = fees ++ all_coins txs

or_assoc : (a b c : Bool) → ((a || b) || c) ≡ (a || (b || c))
or_assoc a b c = ground arith

absorbed : (a b c : Bool) → a ≡ c → (a || b) ≡ ((a || b) || c)
absorbed a b c e = ground arith

both_false : {a b : Bool} → a ≡ false → b ≡ false → (a || b) ≡ false
both_false h k = ground arith

not_eq : (s t : String) → str_eq s t ≡ false → str_eq t s ≡ false
not_eq s t e = ground (arith, eq_iff s t, eq_iff t s)

module _ (n : BigInts) where
  pub sum_of-append :
      (d : String) (xs ys : List Coin)
      → sum_of n d (xs ++ ys) ≡ plus (sum_of n d xs) (sum_of n d ys)
  unfolding sum_of
  sum_of-append d [] ys = sym (plus_comm (some (pos 0)) (sum_of n d ys) ∙ plus_zero (sum_of n d ys))
  sum_of-append d (x ∷ xs) ys =
      ap (plus (worth n d x)) (sum_of-append d xs ys)
      ∙ sym (plus_assoc (worth n d x) (sum_of n d xs) (sum_of n d ys))

  add_amounts_lem :
      (a b s : String) → add_amounts n a b ≡ some s → n.parse s ≡ plus (n.parse a) (n.parse b)
  unfolding add_amounts
  add_amounts_lem a b s e =
      let (z, added, printed) = map-eq-some n.print (plus (n.parse a) (n.parse b)) s e in
      ap n.parse (sym printed) ∙ n.parse-print z ∙ sym added

  -- The coin that was updated is worth the two coins.
  worth-updated :
      (d : String) (c fee : Coin) (s : String)
      → str_eq c.denom fee.denom ≡ true
      → add_amounts n c.amount fee.amount ≡ some s
      → worth n d (record c { amount = s }) ≡ plus (worth n d c) (worth n d fee)
  worth-updated d c fee s same e =
      let as_fee : str_eq c.denom d ≡ str_eq fee.denom d =
        ap (λ x. str_eq x d) ((eq_iff c.denom fee.denom).0 same) in
      elim (Bool-cases (str_eq fee.denom d)) [
        | inl e' ↦ rw (as_fee, e', add_amounts_lem c.amount fee.amount s e)
        | inr e' ↦ rw (as_fee, e') (sym (plus_zero (some (pos 0))))
      ]

  pub sum_of-add_fee :
      (d : String) (acc acc' : List Coin) (fee : Coin)
      → add_fee n acc fee ≡ some acc'
      → sum_of n d acc' ≡ plus (sum_of n d acc) (worth n d fee)
  unfolding add_fee sum_of
  sum_of-add_fee d [] acc' fee e =
      subst (λ l. sum_of n d l ≡ plus (some (pos 0)) (worth n d fee)) (some_inj e)
        (plus_comm (worth n d fee) (some (pos 0)))
  sum_of-add_fee d (c ∷ acc) acc' fee e = elim (Bool-cases (str_eq c.denom fee.denom)) [
    | inl same ↦
        let (s, added, made) =
          bind-eq-some (add_amounts n c.amount fee.amount) _ (rw (same, add_fee) at e) in
        subst (λ l. sum_of n d l ≡ plus (sum_of n d (c ∷ acc)) (worth n d fee)) (some_inj made)
          (ap (λ w. plus w (sum_of n d acc)) (worth-updated d c fee s same added)
            ∙ plus_swap (worth n d c) (worth n d fee) (sum_of n d acc))
    | inr other ↦
        let (rest, found, made) =
          map-eq-some (λ acc'. c ∷ acc') (add_fee n acc fee) acc' (rw (other, add_fee) at e) in
        subst (λ l. sum_of n d l ≡ plus (sum_of n d (c ∷ acc)) (worth n d fee)) made
          (ap (plus (worth n d c)) (sum_of-add_fee d acc rest fee found)
            ∙ sym (plus_assoc (worth n d c) (sum_of n d acc) (worth n d fee)))
  ]

  sum_of-add_fees :
      (d : String) (acc fees res : List Coin)
      → add_fees n acc fees ≡ some res
      → sum_of n d res ≡ plus (sum_of n d acc) (sum_of n d fees)
  unfolding add_fees sum_of
  sum_of-add_fees d acc [] res e =
      subst (λ l. sum_of n d l ≡ plus (sum_of n d acc) (some (pos 0))) (some_inj e)
        (sym (plus_zero (sum_of n d acc)))
  sum_of-add_fees d acc (fee ∷ fees) res e =
      let (acc', added, later) = bind-eq-some (add_fee n acc fee) _ e in
      sum_of-add_fees d acc' fees res later
      ∙ ap (λ s. plus s (sum_of n d fees)) (sum_of-add_fee d acc acc' fee added)
      ∙ plus_assoc (sum_of n d acc) (worth n d fee) (sum_of n d fees)

  sum_of-total_fees_from :
      (d : String) (acc : List Coin) (txs : List (List Coin)) (res : List Coin)
      → total_fees_from n acc txs ≡ some res
      → sum_of n d res ≡ plus (sum_of n d acc) (sum_of n d (all_coins txs))
  unfolding total_fees_from all_coins
  sum_of-total_fees_from d acc [] res e =
      subst (λ l. sum_of n d l ≡ plus (sum_of n d acc) (sum_of n d [])) (some_inj e)
        (unfold sum_of in sym (plus_zero (sum_of n d acc)))
  sum_of-total_fees_from d acc (fees ∷ txs) res e =
      let (acc', added, later) = bind-eq-some (add_fees n acc fees) _ e in
      sum_of-total_fees_from d acc' txs res later
      ∙ ap (λ s. plus s (sum_of n d (all_coins txs))) (sum_of-add_fees d acc fees acc' added)
      ∙ plus_assoc (sum_of n d acc) (sum_of n d fees) (sum_of n d (all_coins txs))
      ∙ ap (plus (sum_of n d acc)) (sym (sum_of-append d fees (all_coins txs)))

  -- Adding a fee lists its denomination and no other that was not listed.
  pub includes-add_fee :
      (d : String) (acc acc' : List Coin) (fee : Coin)
      → add_fee n acc fee ≡ some acc'
      → includes (denoms acc') d ≡ (includes (denoms acc) d || str_eq fee.denom d)
  unfolding add_fee includes
  includes-add_fee d [] acc' fee e =
      subst (λ l. includes (denoms l) d ≡ str_eq fee.denom d) (some_inj e) (ground arith)
  includes-add_fee d (c ∷ acc) acc' fee e = elim (Bool-cases (str_eq c.denom fee.denom)) [
    | inl same ↦
        let (s, added, made) =
          bind-eq-some (add_amounts n c.amount fee.amount) _ (rw (same, add_fee) at e) in
        subst (λ l. includes (denoms l) d ≡ (includes (denoms (c ∷ acc)) d || str_eq fee.denom d))
          (some_inj made)
          (absorbed (str_eq c.denom d) (includes (denoms acc) d) (str_eq fee.denom d)
            (ap (λ x. str_eq x d) ((eq_iff c.denom fee.denom).0 same)))
    | inr other ↦
        let (rest, found, made) =
          map-eq-some (λ acc'. c ∷ acc') (add_fee n acc fee) acc' (rw (other, add_fee) at e) in
        subst (λ l. includes (denoms l) d ≡ (includes (denoms (c ∷ acc)) d || str_eq fee.denom d))
          made
          (ap (λ b. str_eq c.denom d || b) (includes-add_fee d acc rest fee found)
            ∙ sym (or_assoc (str_eq c.denom d) (includes (denoms acc) d) (str_eq fee.denom d)))
  ]

  pub Distinct-add_fee :
      (acc acc' : List Coin) (fee : Coin)
      → add_fee n acc fee ≡ some acc'
      → Distinct (denoms acc)
      → Distinct (denoms acc')
  unfolding add_fee
  Distinct-add_fee [] acc' fee e d =
      subst (λ l. Distinct (denoms l)) (some_inj e) (unfold includes in (refl, tt))
  Distinct-add_fee (c ∷ acc) acc' fee e (out, d) = elim (Bool-cases (str_eq c.denom fee.denom)) [
    | inl same ↦
        let (s, added, made) =
          bind-eq-some (add_amounts n c.amount fee.amount) _ (rw (same, add_fee) at e) in
        subst (λ l. Distinct (denoms l)) (some_inj made) (out, d)
    | inr other ↦
        let (rest, found, made) =
          map-eq-some (λ acc'. c ∷ acc') (add_fee n acc fee) acc' (rw (other, add_fee) at e) in
        subst (λ l. Distinct (denoms l)) made
          (
            includes-add_fee c.denom acc rest fee found
                ∙ both_false out (not_eq c.denom fee.denom other),
            Distinct-add_fee acc rest fee found d,
          )
  ]

  Distinct-add_fees :
      (acc fees res : List Coin)
      → add_fees n acc fees ≡ some res
      → Distinct (denoms acc)
      → Distinct (denoms res)
  unfolding add_fees
  Distinct-add_fees acc [] res e d = subst (λ l. Distinct (denoms l)) (some_inj e) d
  Distinct-add_fees acc (fee ∷ fees) res e d =
      let (acc', added, later) = bind-eq-some (add_fee n acc fee) _ e in
      Distinct-add_fees acc' fees res later (Distinct-add_fee acc acc' fee added d)

  Distinct-total_fees_from :
      (acc : List Coin) (txs : List (List Coin)) (res : List Coin)
      → total_fees_from n acc txs ≡ some res
      → Distinct (denoms acc)
      → Distinct (denoms res)
  unfolding total_fees_from
  Distinct-total_fees_from acc [] res e d = subst (λ l. Distinct (denoms l)) (some_inj e) d
  Distinct-total_fees_from acc (fees ∷ txs) res e d =
      let (acc', added, later) = bind-eq-some (add_fees n acc fees) _ e in
      Distinct-total_fees_from acc' txs res later (Distinct-add_fees acc fees acc' added d)

  -- When no amount fails to parse on the way, the totals list each denomination once, and in every
  -- denomination they are worth what all fees of the block's transactions are worth together.
  pub total_fees_lem :
      (txs : List (List Coin)) (res : List Coin)
      → total_fees n txs ≡ some res
      → Distinct (denoms res) × ((d : String) → sum_of n d res ≡ sum_of n d (all_coins txs))
  unfolding total_fees
  total_fees_lem txs res e = (
    Distinct-total_fees_from [] txs res e tt,
    λ d.
        sum_of-total_fees_from d [] txs res e
        ∙ (unfold sum_of in
            (plus_comm (some (pos 0)) (sum_of n d (all_coins txs))
              ∙ plus_zero (sum_of n d (all_coins txs)))),
  )
