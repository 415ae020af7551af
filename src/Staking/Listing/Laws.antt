-- ===== src/Staking/Listing/Laws.antt =====
-- What the staking listings answer.
use Prim.Native.String.{String}
use safrochain_indexer.Prelude.{
  ℕ, ◌≤◌, Option, none, some, true, List, [], ◌∷◌, All, take, drop, keep, all, length, eq_iff, ◌≡◌,
  refl, sym, arith, and-eq-true, length-take, bind-some,
}
use safrochain_indexer.Prelude.Int.{ℤ}
use safrochain_indexer.Prelude.Sets.{includes}
use safrochain_indexer.Json.Value.{obj, Fields}
use safrochain_indexer.Messages.Parser.{parse_message}
use safrochain_indexer.Messages.Parser.Totality.{parse_message_total}
use safrochain_indexer.Paging.Query.{SelectQuery, AnswersInOrder}
use safrochain_indexer.Paging.Cursor.Laws.{All-imp, keep-All, All-take, All-keep}
use safrochain_indexer.Transactions.Listing.Advanced.{All-skip}
use safrochain_indexer.Staking.Listing.{
  StakingRow, StakingRows, StakingCondition, StakingColumn, type_is, involves, staking_holds,
  staking_query, staking_rows, safe_limit, safe_offset, map_rows, delegation_of,
  parsed_delegation_of, delegate, get_delegations_by_address, get_delegations_by_validator,
}

module _ (order_of get_many : StakingRows)
    (answers : AnswersInOrder staking_holds order_of get_many) where
  module _ (type_name account : String) where
    -- The messages of the type that involve the account, as the query for a window reads them.
    abbrev staking_messages : Option ℤ → Option ℤ → List StakingRow
    staking_messages limit offset =
        keep (λ r. all (λ c. staking_holds c r) (type_is type_name ∷ involves account ∷ []))
          (order_of (staking_query type_name account limit offset))

    rows_at :
        (limit offset : Option ℤ)
        → staking_rows get_many type_name account limit offset
          ≡ take (safe_limit limit) (drop (safe_offset offset) (staking_messages limit offset))
    unfolding staking_rows staking_query
    rows_at limit offset = answers (staking_query type_name account limit offset)

    safe_limit_pos : (limit : Option ℤ) → (1 ≤ safe_limit limit) × (safe_limit limit ≤ 100)
    unfolding safe_limit
    safe_limit_pos none = (omega arith, omega arith)
    safe_limit_pos (some z) = (omega arith, omega arith)

    -- Whatever limit and offset are asked for, and in whichever order the database reads the rows,
    -- at most 100 rows are answered, each of the type and with the account among its involved
    -- addresses.
    pub staking_rows-All :
        (limit offset : Option ℤ)
        → (length (staking_rows get_many type_name account limit offset) ≤ 100)
          × All
              (λ r.
                (r.message.type_name ≡ type_name)
                × (includes r.message.involved_accounts_addresses account ≡ true))
              (staking_rows get_many type_name account limit offset)
    unfolding staking_holds
    staking_rows-All limit offset =
        let P = λ (r : StakingRow).
          (r.message.type_name ≡ type_name)
          × (includes r.message.involved_accounts_addresses account ≡ true) in
        rw (rows_at limit offset) (
          omega (
            arith,
            (safe_limit_pos limit).1,
            length-take (safe_limit limit)
                (drop (safe_offset offset) (staking_messages limit offset)),
          ),
          All-take P (safe_limit limit) _ (
              All-skip P (some (safe_offset offset)) (staking_messages limit offset) (
                All-imp _ P _
                  (λ r e.
                    let (t, rest) = and-eq-true _ _ e in
                    (sym ((eq_iff type_name r.message.type_name).0 t), (and-eq-true _ _ rest).0))
                  (keep-All
                    (λ r. all (λ c. staking_holds c r) (type_is type_name ∷ involves account ∷ []))
                    (order_of (staking_query type_name account limit offset))))),
        )

  -- The message's body is an object.
  abbrev pub IsObject : StakingRow → Type 0
  IsObject r = (fs : Fields) × (r.message.value ≡ obj fs)

  parsed_same :
      (now : ℕ) (r : StakingRow)
      → r.message.type_name ≡ delegate
      → IsObject r
      → parsed_delegation_of now r ≡ delegation_of now r
  unfolding parsed_delegation_of
  parsed_same now r t (fs, body) =
      let (p, parsed) =
        parse_message_total fs delegate r.message.involved_accounts_addresses refl in
      let known : parse_message r.message.type_name r.message.value
            r.message.involved_accounts_addresses
          ≡ some p =
        rw (t, body) parsed in
      bind-some _ known

  map_same :
      (now : ℕ) (rows : List StakingRow)
      → All (λ r. r.message.type_name ≡ delegate) rows
      → All IsObject rows
      → map_rows (parsed_delegation_of now) rows ≡ map_rows (delegation_of now) rows
  map_same now [] t a = refl
  map_same now (r ∷ rows) (h, t) (k, a) = rw (parsed_same now r h k, map_same now rows t a) refl

  -- Where every stored message has an object for a body, the delegations by address and those by
  -- validator are the same for every account: a delegator's address given as a validator
  -- returns the delegator's own delegations.
  pub get_delegations_by_validator-get_delegations_by_address :
      (now : ℕ) (account : String) (limit offset : Option ℤ)
      → ((q : SelectQuery StakingCondition StakingColumn) → All IsObject (order_of q))
      → get_delegations_by_validator get_many now account limit offset
        ≡ get_delegations_by_address get_many now account limit offset
  unfolding get_delegations_by_validator get_delegations_by_address
  get_delegations_by_validator-get_delegations_by_address now account limit offset objects =
      let (few, typed) = staking_rows-All delegate account limit offset in
      let stored : All IsObject (staking_rows get_many delegate account limit offset) =
        rw (rows_at delegate account limit offset) (
          All-take IsObject (safe_limit limit) _ (
            All-skip IsObject (some (safe_offset offset))
              (staking_messages delegate account limit offset)
              (All-keep IsObject _ _ (objects (staking_query delegate account limit offset))))) in
      sym (
        map_same now _ (All-imp _ (λ r. r.message.type_name ≡ delegate) _ (λ r e. e.0) typed)
          stored)
