-- ===== src/Addresses/Response/Totals.antt =====
-- The total amount and the primary denomination of an address's response.
use safrochain_indexer.Prelude.{
  String, some, false, List, [], ◌∷◌, ◌++◌, str_eq, ◌≡◌, refl, ap, sym, ◌∙◌, Bool-cases, inl, inr,
  eq_iff, bind-eq-some, map-eq-some, some_inj, subst, All, or-eq-false,
}
use safrochain_indexer.Prelude.Sets.{includes, Distinct, Distinct-concat}
use safrochain_indexer.Prelude.Int.{pos}
use safrochain_indexer.Amounts.{
  Coin, BigInts, plus, plus_zero, plus_comm, plus_assoc, worth, sum_of,
}
use safrochain_indexer.Blocks.Fees.{add_amounts, add_fee}
use safrochain_indexer.Blocks.Fees.Laws.{denoms, sum_of-append, sum_of-add_fee, Distinct-add_fee}
use safrochain_indexer.Blocks.Fees.Totality.{IsAmount, add_fee-IsAmount}
use safrochain_indexer.Addresses.Response.{
  no_coin, with_zero, primary, group_amount, group_amounts, total_amount,
}

abbrev zero_coin : String → Coin
zero_coin d = record { denom = d; amount = "0" }

-- The first group is of the denomination `d`.
abbrev IsLedBy : String → List Coin → Type 0
IsLedBy d [] = ⊥
IsLedBy d (c ∷ cs) = c.denom ≡ d

denoms-append : (xs ys : List Coin) → denoms (xs ++ ys) ≡ denoms xs ++ denoms ys
denoms-append [] ys = refl
denoms-append (x ∷ xs) ys = ap (λ ds. x.denom ∷ ds) (denoms-append xs ys)

Distinct-with_zero :
    (acc : List Coin) (d : String) → Distinct (denoms acc) → Distinct (denoms (with_zero acc d))
unfolding with_zero
Distinct-with_zero acc d a = elim (Bool-cases (includes (denoms acc) d)) [
  | inl e ↦ rw e a
  | inr e ↦ rw e (
      subst Distinct (sym (denoms-append acc (zero_coin d ∷ [])))
        (Distinct-concat (denoms acc) d e a))
]

IsLedBy-with_zero : (acc : List Coin) (d e : String) → IsLedBy d acc → IsLedBy d (with_zero acc e)
unfolding with_zero
IsLedBy-with_zero [] d e led = absurd led
IsLedBy-with_zero (c ∷ acc) d e led = elim (Bool-cases (includes (denoms (c ∷ acc)) e)) [
  | inl h ↦ rw h led
  | inr h ↦ rw h led
]

All-concat : (P : Coin → Type 0) (xs : List Coin) (z : Coin) → P z → All P xs → All P (xs ++ z ∷ [])
All-concat P [] z h a = (h, tt)
All-concat P (x ∷ xs) z h (k, a) = (k, All-concat P xs z h a)

All-with_zero :
    (P : Coin → Type 0) (acc : List Coin) (d : String)
    → P (zero_coin d)
    → All P acc
    → All P (with_zero acc d)
unfolding with_zero
All-with_zero P acc d z a = elim (Bool-cases (includes (denoms acc) d)) [
  | inl h ↦ rw h a
  | inr h ↦ rw h (All-concat P acc (zero_coin d) z a)
]

module _ (n : BigInts) where
  worth_zero : (d e : String) → worth n d (zero_coin e) ≡ some (pos 0)
  worth_zero d e = elim (Bool-cases (str_eq e d)) [
    | inl h ↦ rw (h, n.parse_zero) refl
    | inr h ↦ rw h refl
  ]

  sum_of-with_zero :
      (d : String) (acc : List Coin) (e : String) → sum_of n d (with_zero acc e) ≡ sum_of n d acc
  unfolding with_zero sum_of
  sum_of-with_zero d acc e = elim (Bool-cases (includes (denoms acc) e)) [
    | inl h ↦ rw h refl
    | inr h ↦ rw h (
        sum_of-append n d acc (zero_coin e ∷ [])
        ∙ ap (plus (sum_of n d acc)) (plus_zero (worth n d (zero_coin e)) ∙ worth_zero d e)
        ∙ plus_zero (sum_of n d acc))
  ]

  IsLedBy-add_fee :
      (d : String) (acc acc' : List Coin) (c : Coin)
      → add_fee n acc c ≡ some acc'
      → IsLedBy d acc
      → IsLedBy d acc'
  unfolding add_fee
  IsLedBy-add_fee d [] acc' c e led = absurd led
  IsLedBy-add_fee d (x ∷ acc) acc' c e led = elim (Bool-cases (str_eq x.denom c.denom)) [
    | inl same ↦
        let (s, added, made) =
          bind-eq-some (add_amounts n x.amount c.amount) _ (rw (same, add_fee) at e) in
        subst (IsLedBy d) (some_inj made) led
    | inr other ↦
        let (rest, found, made) =
          map-eq-some (λ acc'. x ∷ acc') (add_fee n acc c) acc' (rw (other, add_fee) at e) in
        subst (IsLedBy d) made led
  ]

  -- What grouping keeps: the denominations are distinct, the first one stays the first, and every
  -- denomination is worth what it was and what was added.
  group_amounts_lem :
      (d : String) (acc cs res : List Coin)
      → group_amounts n acc cs ≡ some res
      → Distinct (denoms acc)
      → IsLedBy d acc
      → Distinct (denoms res)
        × IsLedBy d res
        × ((k : String) → sum_of n k res ≡ plus (sum_of n k acc) (sum_of n k cs))
  unfolding group_amounts group_amount sum_of
  group_amounts_lem d acc [] res e a led =
      subst
        (λ r.
          Distinct (denoms r)
          × IsLedBy d r
          × ((k : String) → sum_of n k r ≡ plus (sum_of n k acc) (some (pos 0))))
        (some_inj e) (a, led, λ k. sym (plus_zero (sum_of n k acc)))
  group_amounts_lem d acc (c ∷ cs) res e a led =
      let (next, added, later) = bind-eq-some (group_amount n acc c) _ e in
      let (distinct, leads, sums) =
        group_amounts_lem d next cs res later
          (Distinct-add_fee n (with_zero acc c.denom) next c added
            (Distinct-with_zero acc c.denom a))
          (IsLedBy-add_fee d (with_zero acc c.denom) next c added
            (IsLedBy-with_zero acc d c.denom led)) in
      (
        distinct,
        leads,
        λ k.
            sums k
            ∙ ap (λ s. plus s (sum_of n k cs))
                (sum_of-add_fee n k (with_zero acc c.denom) next c added
                  ∙ ap (λ s. plus s (worth n k c)) (sum_of-with_zero k acc c.denom))
            ∙ plus_assoc (sum_of n k acc) (worth n k c) (sum_of n k cs),
      )

  sum_of_none :
      (d : String) (cs : List Coin) → includes (denoms cs) d ≡ false → sum_of n d cs ≡ some (pos 0)
  unfolding sum_of includes
  sum_of_none d [] e = refl
  sum_of_none d (c ∷ cs) e =
      let (other, rest) = or-eq-false (str_eq c.denom d) (includes (denoms cs) d) e in
      rw (other, sum_of_none d cs rest) (plus_zero (some (pos 0)))

  -- What the first group of a list without repeated denominations is worth.
  primary_worth :
      (d : String) (res : List Coin)
      → Distinct (denoms res)
      → IsLedBy d res
      → ((primary res).denom ≡ d) × (n.parse (primary res).amount ≡ sum_of n d res)
  unfolding sum_of
  primary_worth d [] a led = absurd led
  primary_worth d (c ∷ cs) (out, a) led = (
    led,
    sym (
        rw
          (
            (eq_iff c.denom d).1 led,
            sum_of_none d cs (subst (λ e. includes (denoms cs) e ≡ false) led out),
          )
          (plus_zero (n.parse c.amount))),
  )

  -- What the total of a list of coins is: nothing for none, and else the amount of the first coin's
  -- denomination in all of them.
  abbrev pub IsTotal : List Coin → Coin → Type 0
  IsTotal [] total = total ≡ no_coin
  IsTotal (c ∷ cs) total =
      (total.denom ≡ c.denom) × (n.parse total.amount ≡ sum_of n c.denom (c ∷ cs))

  -- When every amount could be read, the total amount of a response is the sum of all amounts in
  -- the denomination that stands first, and no coin gives the amount 0 in no denomination.
  pub total_amount-IsTotal :
      (coins : List Coin) (total : Coin) → total_amount n coins ≡ some total → IsTotal coins total
  unfolding total_amount group_amounts group_amount sum_of
  total_amount-IsTotal [] total e = sym (some_inj e)
  total_amount-IsTotal (c ∷ cs) total e =
      let (res, grouped, first) = map-eq-some primary (group_amounts n [] (c ∷ cs)) total e in
      let (next, added, later) = bind-eq-some (group_amount n [] c) _ grouped in
      let start = zero_coin c.denom ∷ [] in
      let opened : with_zero [] c.denom ≡ start = unfold with_zero includes in refl in
      let made = subst (λ l. add_fee n l c ≡ some next) opened added in
      let distinct : Distinct (denoms next) =
        Distinct-add_fee n start next c made (unfold includes in (refl, tt)) in
      let (all_distinct, leads, sums) =
        group_amounts_lem c.denom next cs res later distinct
          (IsLedBy-add_fee c.denom start next c made refl) in
      let (denom_is, amount_is) = primary_worth c.denom res all_distinct leads in
      let first_sum : sum_of n c.denom next ≡ worth n c.denom c =
        sum_of-add_fee n c.denom start next c made
        ∙ (unfold sum_of in
            ap (λ s. plus s (worth n c.denom c))
              (plus_zero (worth n c.denom (zero_coin c.denom)) ∙ worth_zero c.denom c.denom)
            ∙ plus_comm (some (pos 0)) (worth n c.denom c)
            ∙ plus_zero (worth n c.denom c)) in
      (
        sym (ap (λ t. t.denom) first) ∙ denom_is,
        sym (ap (λ t. n.parse t.amount) first)
            ∙ amount_is
            ∙ sums c.denom
            ∙ ap (λ s. plus s (sum_of n c.denom cs)) first_sum,
      )

  -- The total is computed without an error where every amount is a number.
  group_amounts-IsAmount :
      (acc cs : List Coin)
      → All (IsAmount n) acc
      → All (IsAmount n) cs
      → (res : List Coin) × (group_amounts n acc cs ≡ some res)
  unfolding group_amounts group_amount
  group_amounts-IsAmount acc [] a b = (acc, refl)
  group_amounts-IsAmount acc (c ∷ cs) a (h, b) =
      let (next, added, good) =
        add_fee-IsAmount n (with_zero acc c.denom) c
          (All-with_zero (IsAmount n) acc c.denom (pos 0, n.parse_zero) a) h in
      let (res, done) = group_amounts-IsAmount next cs good b in
      (res, rw (added, group_amounts) done)

  pub total_amount_total :
      (coins : List Coin)
      → All (IsAmount n) coins
      → (total : Coin) × (total_amount n coins ≡ some total)
  unfolding total_amount
  total_amount_total coins a =
      let (res, done) = group_amounts-IsAmount [] coins tt a in (primary res, rw done refl)
