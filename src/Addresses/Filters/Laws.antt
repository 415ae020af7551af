-- ===== src/Addresses/Filters/Laws.antt =====
-- An address filter's conditions against what each field of the filter asks for.
use Prim.Native.String.{String}
use safrochain_indexer.Prelude.{
  ℕ, ◌≤◌, Option, none, some, Bool, true, false, not, List, leb, ◌≡◌, ◌↔◌, refl, all, arith,
  and-eq-true, if◌then◌else◌,
}
use safrochain_indexer.Prelude.Sets.{includes}
use safrochain_indexer.Json.Value.{get}
use safrochain_indexer.Paging.Query.{when}
use safrochain_indexer.Entities.{Message}
use safrochain_indexer.Transactions.Filters.{
  TransactionRow, in_partition, given_num, given_text, given_list, containing, exists_message,
  block_time, memo_matches,
}
use safrochain_indexer.Transactions.Filters.Laws.{and_part, given_part}
use safrochain_indexer.Addresses.Response.{Direction, sent, received, both, equals_text}
use safrochain_indexer.Addresses.Filters.{
  AddressTransactionFilter, AddressCondition, success_is, height_ge, height_le, gas_used_ge,
  gas_used_le, gas_wanted_ge, gas_wanted_le, memo_like, has_message_type, has_module, sends_from,
  sends_to, search_like, block_from, block_to, direction_condition, column_conditions,
  message_conditions, build_address_transaction_query, of_modules, address_holds,
}

module _ (ilike : String → String → Bool) (value_text : Message → String)
    (types_module : String → String → Bool) (a : String) (f : AddressTransactionFilter)
    (r : TransactionRow) where
  abbrev meets : AddressCondition → Bool
  meets c = address_holds ilike value_text types_module c r

  abbrev pub from_it : Message → Bool
  from_it m = equals_text (get "from_address" m.value) a

  abbrev pub to_it : Message → Bool
  to_it m = equals_text (get "to_address" m.value) a

  -- What a filter asks of the transaction's own columns.
  pub record MatchesColumns : Type 0 where
    pub success_wanted : (b : Bool) → f.success ≡ some b → r.transaction.success ≡ b
    pub height_from : (n : ℕ) → given_num f.min_height ≡ some n → n ≤ r.transaction.height
    pub height_to : (n : ℕ) → given_num f.max_height ≡ some n → r.transaction.height ≤ n
    pub gas_used_from : (n : ℕ) → given_num f.min_gas_used ≡ some n → n ≤ r.transaction.gas_used
    pub gas_used_to : (n : ℕ) → given_num f.max_gas_used ≡ some n → r.transaction.gas_used ≤ n
    pub gas_wanted_from :
        (n : ℕ) → given_num f.min_gas_wanted ≡ some n → n ≤ r.transaction.gas_wanted
    pub gas_wanted_to : (n : ℕ) → given_num f.max_gas_wanted ≡ some n → r.transaction.gas_wanted ≤ n
    pub memo_wanted :
        (s : String)
        → given_text f.memo ≡ some s
        → memo_matches (ilike (containing s)) r.transaction.memo ≡ true

  -- What it asks of the messages and of the block.
  pub record MatchesMessages : Type 0 where
    pub types_in :
        (ts : List String)
        → given_list f.message_types ≡ some ts
        → exists_message (λ m. includes ts m.type_name) (in_partition r) ≡ true
    pub modules_in :
        (ns : List String)
        → given_list f.modules ≡ some ns
        → exists_message (of_modules ilike value_text types_module ns) (in_partition r) ≡ true
    pub sent_by : f.direction ≡ some sent → exists_message from_it (in_partition r) ≡ true
    pub received_by : f.direction ≡ some received → exists_message to_it (in_partition r) ≡ true
    pub sender_is : f.sender_only ≡ true → exists_message from_it (in_partition r) ≡ true
    pub receiver_is : f.receiver_only ≡ true → exists_message to_it (in_partition r) ≡ true
    pub searched :
        (s : String) → given_text f.search ≡ some s → meets (search_like (containing s)) ≡ true
    pub from_date :
        (t : ℕ) → f.date_from ≡ some t → block_time (λ u. leb t u) r.transaction.block ≡ true
    pub to_date :
        (t : ℕ) → f.date_to ≡ some t → block_time (λ u. leb u t) r.transaction.block ≡ true

  leb_iff : (x y : ℕ) → (leb x y ≡ true) ↔ (x ≤ y)
  leb_iff x y = ground arith

  success_iff : (b s : Bool) → ((if b then s else not s) ≡ true) ↔ (s ≡ b)
  success_iff b s = ground arith

  column_conditions_iff : (all meets (column_conditions f) ≡ true) ↔ MatchesColumns
  unfolding column_conditions address_holds
  column_conditions_iff =
      let (to, from) =
        and_part meets _ _
          (given_part meets f.success success_is (λ b. r.transaction.success ≡ b)
            (λ b. success_iff b _))
          (and_part meets _ _
            (given_part meets (given_num f.min_height) height_ge (λ n. n ≤ r.transaction.height)
              (λ n. leb_iff n _))
            (and_part meets _ _
              (given_part meets (given_num f.max_height) height_le (λ n. r.transaction.height ≤ n)
                (λ n. leb_iff _ n))
              (and_part meets _ _
                (given_part meets (given_num f.min_gas_used) gas_used_ge
                  (λ n. n ≤ r.transaction.gas_used) (λ n. leb_iff n _))
                (and_part meets _ _
                  (given_part meets (given_num f.max_gas_used) gas_used_le
                    (λ n. r.transaction.gas_used ≤ n) (λ n. leb_iff _ n))
                  (and_part meets _ _
                    (given_part meets (given_num f.min_gas_wanted) gas_wanted_ge
                      (λ n. n ≤ r.transaction.gas_wanted) (λ n. leb_iff n _))
                    (and_part meets _ _
                      (given_part meets (given_num f.max_gas_wanted) gas_wanted_le
                        (λ n. r.transaction.gas_wanted ≤ n) (λ n. leb_iff _ n))
                      (given_part meets (given_text f.memo) (λ s. memo_like (containing s))
                        (λ s. memo_matches (ilike (containing s)) r.transaction.memo ≡ true)
                        (λ s. (λ h. h, λ h. h))))))))) in
      (
        λ h.
            let (s, (h1, (h2, (u1, (u2, (w1, (w2, m))))))) = to h in
            record {
              success_wanted = s;
              height_from = h1;
              height_to = h2;
              gas_used_from = u1;
              gas_used_to = u2;
              gas_wanted_from = w1;
              gas_wanted_to = w2;
              memo_wanted = m;
            },
        λ w. from (
          w.success_wanted,
          (
            w.height_from,
            (
              w.height_to,
              (
                w.gas_used_from,
                (w.gas_used_to, (w.gas_wanted_from, (w.gas_wanted_to, w.memo_wanted))),
              ),
            ),
          ),
        ),
      )

  direction_part :
      (o : Option Direction)
      → (all meets (direction_condition a o) ≡ true) ↔ (
          (o ≡ some sent → exists_message from_it (in_partition r) ≡ true)
          × (o ≡ some received → exists_message to_it (in_partition r) ≡ true))
  unfolding direction_condition address_holds
  direction_part none = (λ h. (λ e. absurd (cc), λ e. absurd (cc)), λ h. refl)
  direction_part (some sent) =
      (λ h. (λ e. ground arith, λ e. absurd (cc)), λ (h, k). ground (arith, h refl))
  direction_part (some received) =
      (λ h. (λ e. absurd (cc), λ e. ground arith), λ (h, k). ground (arith, k refl))
  direction_part (some both) = (λ h. (λ e. absurd (cc), λ e. absurd (cc)), λ h. refl)

  when_part :
      (b : Bool) (c : AddressCondition)
      → (all meets (when b c) ≡ true) ↔ (b ≡ true → meets c ≡ true)
  when_part true c = (λ h e. ground arith, λ k. ground (arith, k refl))
  when_part false c = (λ h e. absurd (cc), λ k. refl)

  message_conditions_iff : (all meets (message_conditions a f) ≡ true) ↔ MatchesMessages
  unfolding message_conditions address_holds
  message_conditions_iff =
      let (to, from) =
        and_part meets _ _
          (given_part meets (given_list f.message_types) has_message_type
            (λ ts. exists_message (λ m. includes ts m.type_name) (in_partition r) ≡ true)
            (λ ts. (λ h. h, λ h. h)))
          (and_part meets _ _
            (given_part meets (given_list f.modules) has_module
              (λ ns.
                exists_message (of_modules ilike value_text types_module ns) (in_partition r)
                ≡ true)
              (λ ns. (λ h. h, λ h. h)))
            (and_part meets _ _ (direction_part f.direction) (
              and_part meets _ _ (when_part f.sender_only (sends_from a)) (
                and_part meets _ _ (when_part f.receiver_only (sends_to a)) (
                  and_part meets _ _
                    (given_part meets (given_text f.search) (λ s. search_like (containing s))
                      (λ s. meets (search_like (containing s)) ≡ true) (λ s. (λ h. h, λ h. h)))
                    (and_part meets _ _
                      (given_part meets f.date_from block_from
                        (λ t. block_time (λ u. leb t u) r.transaction.block ≡ true)
                        (λ t. (λ h. h, λ h. h)))
                      (given_part meets f.date_to block_to
                        (λ t. block_time (λ u. leb u t) r.transaction.block ≡ true)
                        (λ t. (λ h. h, λ h. h))))))))) in
      (
        λ h.
            let (ts, (ns, ((d1, d2), (s1, (s2, (q, (t1, t2))))))) = to h in
            record {
              types_in = ts;
              modules_in = ns;
              sent_by = d1;
              received_by = d2;
              sender_is = s1;
              receiver_is = s2;
              searched = q;
              from_date = t1;
              to_date = t2;
            },
        λ w. from (
          w.types_in,
          (
            w.modules_in,
            (
              (w.sent_by, w.received_by),
              (w.sender_is, (w.receiver_is, (w.searched, (w.from_date, w.to_date)))),
            ),
          ),
        ),
      )

  pub build_address_transaction_query_iff :
      (all meets (build_address_transaction_query a f) ≡ true) ↔ (
        (exists_message (λ m. includes m.involved_accounts_addresses a) (in_partition r) ≡ true)
        × MatchesColumns
        × MatchesMessages)
  unfolding build_address_transaction_query address_holds
  build_address_transaction_query_iff =
      let (to, from) = and_part meets _ _ column_conditions_iff message_conditions_iff in
      (
        λ h. let (i, rest) = and-eq-true _ _ h in let (c, m) = to rest in (i, c, m),
        λ (i, c, m). ground (arith, i, from (c, m)),
      )

  -- A transaction meets the conditions for an address and a filter exactly when one of its messages
  -- involves the address and it matches every given field of the filter other than the fee fields,
  -- the amounts, their denomination and include_failed. Whatever those fields say, the conditions
  -- are the same, and a direction "both" asks for no more than none.
  pub build_address_transaction_query_lem :
      ((all meets (build_address_transaction_query a f) ≡ true) ↔ (
        (exists_message (λ m. includes m.involved_accounts_addresses a) (in_partition r) ≡ true)
        × MatchesColumns
        × MatchesMessages))
      × ((lowest_fee highest_fee fee_denom lowest highest denom : Option String) (failed : Bool)
          → build_address_transaction_query a (record f {
            min_fee_amount = lowest_fee;
            max_fee_amount = highest_fee;
            fee_denom = fee_denom;
            min_amount = lowest;
            max_amount = highest;
            denom = denom;
            include_failed = failed;
          })
            ≡ build_address_transaction_query a f)
      × (build_address_transaction_query a (record f { direction = some both })
          ≡ build_address_transaction_query a (record f { direction = none }))
  unfolding build_address_transaction_query column_conditions message_conditions direction_condition
  build_address_transaction_query_lem = (
    build_address_transaction_query_iff,
    λ lowest_fee highest_fee fee_denom lowest highest denom failed. refl,
    refl,
  )
