-- ===== src/Staking/Listing.antt =====
-- The listings of staking messages by an account. A property of a message is a string, as
-- protobuf's JSON encoding has it; another kind counts as missing here. The 21 days of
-- `completion_time` are added to the clock's reading, in milliseconds.
pub mod Laws
use Prim.Native.String.{String}
use safrochain_indexer.Prelude.{
  ℕ, ◌+◌, ◌*◌, min, max, Option, none, some, Bool, true, false, List, [], ◌∷◌, str_eq, ◌>>=◌,
  get_or_else,
}
use safrochain_indexer.Prelude.Int.{ℤ, pos, at_least}
use safrochain_indexer.Prelude.Sets.{includes}
use safrochain_indexer.Json.Value.{Value, get}
use safrochain_indexer.Entities.{Block, Message}
use safrochain_indexer.Messages.Parser.{prop, parse_message}
use safrochain_indexer.Paging.Query.{SelectQuery, desc}
use safrochain_indexer.Transactions.Response.{text_of, timestamp_of}

-- A row of the join: the message and the block of its transaction.
pub record StakingRow : Type 0 where
  pub message : Message
  pub block : Option Block

pub data StakingCondition : Type 0 where
  type_is : String → StakingCondition
  involves : String → StakingCondition

pub data StakingColumn : Type 0 where
  height : StakingColumn

-- `Math.min(Math.max(limit ?? 20, 1), StakingService.MAX_PAGE_SIZE)`
unfoldable pub safe_limit : Option ℤ → ℕ
safe_limit limit = min (at_least 1 (get_or_else limit (pos 20))) 100

-- `Math.max(offset ?? 0, 0)`
unfoldable pub safe_offset : Option ℤ → ℕ
safe_offset offset = at_least 0 (get_or_else offset (pos 0))

abbrev pub StakingRows : Type 0
StakingRows = SelectQuery StakingCondition StakingColumn → List StakingRow

unfoldable pub staking_query :
    String → String → Option ℤ → Option ℤ → SelectQuery StakingCondition StakingColumn
unfolding safe_limit safe_offset
staking_query type_name address limit offset = record {
  conditions = type_is type_name ∷ involves address ∷ [];
  order_by = height;
  order = desc;
  limit = some (safe_limit limit);
  offset = some (safe_offset offset);
}

unfoldable pub staking_rows : StakingRows → String → String → Option ℤ → Option ℤ → List StakingRow
unfolding staking_query
staking_rows get_many type_name address limit offset =
    get_many (staking_query type_name address limit offset)

abbrev text_or : Option String → String → String
text_or none s = s
text_or (some t) s = t

-- `value.key || fallback`, where reading a property of null throws.
unfoldable pub text_prop : String → String → Value → Option String
unfolding prop
text_prop key fallback value = prop key value >>= λ v. some (text_or (text_of v) fallback)

-- `value.amount?.key || fallback`
unfoldable pub amount_prop : String → String → Value → Option String
unfolding prop get
amount_prop key fallback value =
    prop "amount" value >>= λ amount. some (text_or (text_of (get key amount)) fallback)

-- `DelegationDto`; `WithdrawalDto` has the same properties.
pub record Delegation : Type 0 where
  pub delegator_address : String
  pub validator_address : String
  pub amount : String
  pub denom : String
  pub transaction_hash : String
  pub height : ℕ
  pub timestamp : ℕ

pub record Undelegation : Type 0 where
  pub delegation : Delegation
  pub completion_time : ℕ

pub record Redelegation : Type 0 where
  pub delegator_address : String
  pub validator_src_address : String
  pub validator_dst_address : String
  pub amount : String
  pub denom : String
  pub completion_time : ℕ
  pub transaction_hash : String
  pub height : ℕ
  pub timestamp : ℕ

unfoldable pub delegation_of : ℕ → StakingRow → Option Delegation
unfolding text_prop amount_prop
delegation_of now r =
    let value = r.message.value in
    do
      delegator ← text_prop "delegator_address" "" value
      validator ← text_prop "validator_address" "" value
      amount ← amount_prop "amount" "0" value
      denom ← amount_prop "denom" "" value
      some (record {
        delegator_address = delegator;
        validator_address = validator;
        amount = amount;
        denom = denom;
        transaction_hash = r.message.transaction_hash;
        height = r.message.height;
        timestamp = timestamp_of now r.block;
      })

-- The body that parses the message first and leaves the result unused.
unfoldable pub parsed_delegation_of : ℕ → StakingRow → Option Delegation
unfolding parse_message delegation_of
parsed_delegation_of now r =
    parse_message r.message.type_name r.message.value r.message.involved_accounts_addresses
    >>= λ parsed. delegation_of now r

abbrev pub three_weeks : ℕ
three_weeks = 21 * 24 * 60 * 60 * 1000

unfoldable pub undelegation_of : ℕ → StakingRow → Option Undelegation
unfolding delegation_of
undelegation_of now r = do
  delegation ← delegation_of now r
  some (record { delegation = delegation; completion_time = now + three_weeks })

unfoldable pub redelegation_of : ℕ → StakingRow → Option Redelegation
unfolding text_prop amount_prop
redelegation_of now r =
    let value = r.message.value in
    do
      delegator ← text_prop "delegator_address" "" value
      src ← text_prop "validator_src_address" "" value
      dst ← text_prop "validator_dst_address" "" value
      amount ← amount_prop "amount" "0" value
      denom ← amount_prop "denom" "" value
      some (record {
        delegator_address = delegator;
        validator_src_address = src;
        validator_dst_address = dst;
        amount = amount;
        denom = denom;
        completion_time = now + three_weeks;
        transaction_hash = r.message.transaction_hash;
        height = r.message.height;
        timestamp = timestamp_of now r.block;
      })

unfoldable pub withdrawal_of : ℕ → StakingRow → Option Delegation
unfolding text_prop
withdrawal_of now r =
    let value = r.message.value in
    do
      delegator ← text_prop "delegator_address" "" value
      validator ← text_prop "validator_address" "" value
      some (record {
        delegator_address = delegator;
        validator_address = validator;
        amount = "0";
        denom = "asafro";
        transaction_hash = r.message.transaction_hash;
        height = r.message.height;
        timestamp = timestamp_of now r.block;
      })

-- `messages.map(...)`, none if the callback throws.
abbrev pub map_rows : {A : Type 0} → (StakingRow → Option A) → List StakingRow → Option (List A)
map_rows f [] = some []
map_rows f (r ∷ rows) = f r >>= λ a. map_rows f rows >>= λ rest. some (a ∷ rest)

abbrev pub delegate : String
delegate = "cosmos.staking.v1beta1.MsgDelegate"

abbrev pub undelegate : String
undelegate = "cosmos.staking.v1beta1.MsgUndelegate"

abbrev pub redelegate : String
redelegate = "cosmos.staking.v1beta1.MsgBeginRedelegate"

abbrev pub withdraw : String
withdraw = "cosmos.distribution.v1beta1.MsgWithdrawDelegatorReward"

module _ (get_many : StakingRows) (now : ℕ) (account : String) (limit offset : Option ℤ) where
  unfoldable pub get_delegations_by_address : Option (List Delegation)
  unfolding staking_rows parsed_delegation_of
  get_delegations_by_address =
      map_rows (parsed_delegation_of now) (staking_rows get_many delegate account limit offset)

  unfoldable pub get_delegations_by_validator : Option (List Delegation)
  unfolding staking_rows delegation_of
  get_delegations_by_validator =
      map_rows (delegation_of now) (staking_rows get_many delegate account limit offset)

  unfoldable pub get_undelegations_by_address : Option (List Undelegation)
  unfolding staking_rows undelegation_of
  get_undelegations_by_address =
      map_rows (undelegation_of now) (staking_rows get_many undelegate account limit offset)

  unfoldable pub get_undelegations_by_validator : Option (List Undelegation)
  unfolding staking_rows undelegation_of
  get_undelegations_by_validator =
      map_rows (undelegation_of now) (staking_rows get_many undelegate account limit offset)

  unfoldable pub get_redelegations_by_address : Option (List Redelegation)
  unfolding staking_rows redelegation_of
  get_redelegations_by_address =
      map_rows (redelegation_of now) (staking_rows get_many redelegate account limit offset)

  unfoldable pub get_withdrawals_by_address : Option (List Delegation)
  unfolding staking_rows withdrawal_of
  get_withdrawals_by_address =
      map_rows (withdrawal_of now) (staking_rows get_many withdraw account limit offset)

  unfoldable pub get_withdrawals_by_validator : Option (List Delegation)
  unfolding staking_rows withdrawal_of
  get_withdrawals_by_validator =
      map_rows (withdrawal_of now) (staking_rows get_many withdraw account limit offset)

-- What SQL makes of each condition on a row.
unfoldable pub staking_holds : StakingCondition → StakingRow → Bool
staking_holds (type_is t) r = str_eq t r.message.type_name
staking_holds (involves a) r = includes r.message.involved_accounts_addresses a
