-- ===== src/Blocks/Single/Laws.antt =====
-- What a block's response says of its transactions.
use safrochain_indexer.Prelude.{
  ℕ, zero, suc, ltb, Bool-cases, inl, inr, ◌+◌, ◌*◌, ◌/◌, ◌≤◌, ◌<◌, some, true, false, List, [],
  ◌∷◌, map, length, ◌≡◌, refl, ap, sym, ◌∙◌, arith, some_inj, bind-eq-some, if◌then◌else◌, ◌==◌,
}
use native.Mathlib.Nat.{div-add-mod, mod-lt}
use safrochain_indexer.Prelude.Sets.{unique}
use safrochain_indexer.Amounts.{BigInts}
use safrochain_indexer.Blocks.Fees.{total_fees}
use safrochain_indexer.Entities.{Transaction, Message}
use safrochain_indexer.Transactions.Response.{
  has_json, json_of, message_views, collect_addresses, modules_of, TransactionResponse,
  transaction_response,
}
use safrochain_indexer.Blocks.Messages.{block_messages, nothing_collected, collect_messages}
use safrochain_indexer.Blocks.Messages.Laws.{json_messages_same, collect_messages-IsCollected}
use safrochain_indexer.Blocks.Single.{
  power_above, join_digits, gas_sum, round_div, BlockStatistics, fee_coins, block_statistics,
  BlockTransaction, block_transaction,
}

ltb→lt : (a b : ℕ) → ltb a b ≡ true → a < b
ltb→lt a b h = ground arith

not_ltb→le : (a b : ℕ) → ltb a b ≡ false → b ≤ a
not_ltb→le a b h = ground arith

times_le : (k a b : ℕ) → a ≤ b → k * a ≤ k * b
times_le zero a b h = omega arith
times_le (suc k) a b h = let rest = times_le k a b h in omega (arith, rest)

-- The nearest whole number to a quotient.
round_div_near :
    (sum count : ℕ)
    → 1 ≤ count
    → (2 * (round_div sum count * count) ≤ 2 * sum + count)
      × (2 * sum < 2 * (round_div sum count * count) + count)
unfolding round_div
round_div_near sum count h =
    let q = (2 * sum + count) / (2 * count) in
    let pos : 1 ≤ 2 * count = omega arith in
    let twice : 2 * count * q ≡ 2 * (q * count) = grind arith in
    let whole = div-add-mod (2 * sum + count) (2 * count) in
    let rest = mod-lt (2 * sum + count) pos in
    (omega (arith, whole, twice), omega (arith, whole, rest, twice))

power_above-above :
    (fuel power gas : ℕ) → 1 ≤ power → gas < power + fuel → gas < power_above fuel power gas
unfolding power_above
power_above-above zero power gas h enough = omega arith
power_above-above (suc fuel) power gas h enough = elim (Bool-cases (ltb gas power)) [
  | inl e ↦ rw e (ltb→lt gas power e)
  | inr e ↦ rw e (
      power_above-above fuel (power * 10) gas (omega arith)
        (let over = not_ltb→le gas power e in omega arith))
]

power_above-least : (fuel power gas : ℕ) → power ≤ power_above fuel power gas
unfolding power_above
power_above-least zero power gas = omega arith
power_above-least (suc fuel) power gas =
    let rest = power_above-least fuel (power * 10) gas in ground (arith, rest)

-- The gas that the transactions have used.
unfoldable pub gas_total : List Transaction → ℕ
gas_total [] = 0
gas_total (tx ∷ txs) = tx.gas_used + gas_total txs

-- Joining digits shifts what was there by one place at least.
join_digits-shifts : (sum gas : ℕ) → 10 * sum + gas ≤ join_digits sum gas
unfolding join_digits
join_digits-shifts sum gas =
    let least = power_above-least gas 10 gas in
    let shifted : sum * 10 ≤ sum * power_above gas 10 gas = times_le sum 10 _ least in
    omega (arith, shifted)

gas_sum-least : (sum : ℕ) (txs : List Transaction) → sum + gas_total txs ≤ gas_sum sum txs
unfolding gas_sum gas_total
gas_sum-least sum [] = omega arith
gas_sum-least sum (tx ∷ txs) =
    let rest = gas_sum-least (join_digits sum tx.gas_used) txs in
    let joined = join_digits-shifts sum tx.gas_used in omega (arith, rest, joined)

gas_sum-Overstates :
    (x y : Transaction) (txs : List Transaction)
    → gas_total (x ∷ y ∷ txs) + 9 * x.gas_used ≤ gas_sum 0 (x ∷ y ∷ txs)
unfolding gas_sum gas_total
gas_sum-Overstates x y txs =
    let first = join_digits-shifts 0 x.gas_used in
    let second = join_digits-shifts (join_digits 0 x.gas_used) y.gas_used in
    let rest = gas_sum-least (join_digits (join_digits 0 x.gas_used) y.gas_used) txs in
    omega (arith, first, second, rest)

round_div-one : (gas : ℕ) → round_div (join_digits 0 gas) 1 ≡ gas
unfolding round_div join_digits
round_div-one gas = omega arith

-- Below this the doubles of JavaScript compute the rounded average exactly.
abbrev pub exact_limit : ℕ
exact_limit = 2251799813685248

module _ (n : BigInts) where
  average_of :
      (txs : List Transaction) (s : BlockStatistics)
      → block_statistics n txs ≡ some s
      → s.average_gas_per_tx
        ≡ (if length txs == 0 then 0 else round_div (gas_sum 0 txs) (length txs))
  unfolding block_statistics
  average_of txs s e =
      let (fees, added, made) = bind-eq-some (total_fees n (map fee_coins txs)) _ e in
      sym (ap (λ s. s.average_gas_per_tx) (some_inj made))

  -- As long as the joined digits spell a number below 2 ^ 51: the average gas of a block with one
  -- transaction is what it used, and for more transactions the average times their number
  -- is above all the gas used by nine times that of the first, up to the rounding.
  pub block_statistics-Overstates :
      (txs : List Transaction) (s : BlockStatistics)
      → block_statistics n txs ≡ some s
      → gas_sum 0 txs < exact_limit
      → ((x : Transaction) → txs ≡ x ∷ [] → s.average_gas_per_tx ≡ x.gas_used)
        × ((x y : Transaction) (rest : List Transaction)
            → txs ≡ x ∷ y ∷ rest
            → 2 * (gas_total txs + 9 * x.gas_used)
              < 2 * (s.average_gas_per_tx * length txs) + length txs)
  block_statistics-Overstates txs s e exact = (
    λ x one. average_of txs s e ∙ rw one (unfold gas_sum in round_div-one x.gas_used),
    λ x y rest several.
        let (lo, hi) =
          round_div_near (gas_sum 0 (x ∷ y ∷ rest)) (length (x ∷ y ∷ rest)) (omega arith) in
        let more = gas_sum-Overstates x y rest in
        rw (average_of txs s e, several) (ground (arith, hi, more)),
  )

-- What a block's entry and the transaction's own response say alike.
pub record SameMessages (b : BlockTransaction) (t : TransactionResponse) : Type 0 where
  pub hash_is : b.hash ≡ t.hash
  pub success_is : b.success ≡ t.success
  pub messages_are : b.messages ≡ t.messages
  pub logs_are : b.logs ≡ t.logs
  pub involved_is : b.involved_addresses ≡ t.involved_addresses
  pub count_is : b.message_count ≡ t.message_count
  pub types_are : b.message_types ≡ t.message_types
  pub categories_are : b.categories ≡ t.categories

same_field :
    {X : Type 0} {r s : BlockTransaction} {t u : TransactionResponse} (f : BlockTransaction → X)
    (g : TransactionResponse → X)
    → r ≡ s
    → t ≡ u
    → f r ≡ g t
    → f s ≡ g u
same_field f g e k h = sym (ap f e) ∙ h ∙ ap g k

-- For a transaction with messages in its own row, the entry that the block service makes of it, with
-- its own walk over a message's JSON and its own loop over the messages, has the same messages,
-- logs, addresses, types and modules as the transaction service's response, whatever
-- the message table holds.
pub block_transaction-SameMessages :
    (now : ℕ) (tx : Transaction) (db : List Message) (b : BlockTransaction)
    (t : TransactionResponse)
    → has_json tx ≡ true
    → block_transaction tx ≡ some b
    → transaction_response now tx db ≡ some t
    → SameMessages b t
unfolding block_transaction block_messages transaction_response message_views unique
block_transaction-SameMessages now tx db b t json e k =
    let same : message_views tx db ≡ block_messages tx =
      rw json (sym (json_messages_same 0 (json_of tx.messages))) in
    let (c, collected, made) =
      bind-eq-some (collect_messages nothing_collected (block_messages tx)) _ e in
    let (modules, parsed, made') = bind-eq-some (modules_of (message_views tx db)) _ k in
    let r =
      collect_messages-IsCollected nothing_collected c (block_messages tx) modules collected
        (ap modules_of (sym same) ∙ parsed) in
    let b_is = some_inj made in
    let t_is = some_inj made' in
    record {
      hash_is = same_field (λ b. b.hash) (λ t. t.hash) b_is t_is refl;
      success_is = same_field (λ b. b.success) (λ t. t.success) b_is t_is refl;
      messages_are = same_field (λ b. b.messages) (λ t. t.messages) b_is t_is (sym same);
      logs_are = same_field (λ b. b.logs) (λ t. t.logs) b_is t_is refl;
      involved_is =
          same_field (λ b. b.involved_addresses) (λ t. t.involved_addresses) b_is t_is
            (r.addresses_are ∙ ap (collect_addresses []) (sym same));
      count_is =
          same_field (λ b. b.message_count) (λ t. t.message_count) b_is t_is (ap length (sym same));
      types_are =
          same_field (λ b. b.message_types) (λ t. t.message_types) b_is t_is
            (r.types_are ∙ ap (λ ms. unique (map (λ m. m.type_name) ms)) (sym same));
      categories_are =
          same_field (λ b. b.categories) (λ t. t.categories) b_is t_is r.categories_are;
    }
