-- ===== src/Transactions/Filters.antt =====
-- `buildTransactionQuery`, `getSortField` and the DTO `TransactionFilterDto`: the conditions that a
-- filter adds to a query. PostgreSQL's ILIKE is the argument `ilike pattern text`.
pub mod Laws
use Prim.Native.String
use safrochain_indexer.Prelude.{
  ℕ, zero, suc, String, Option, none, some, Bool, true, false, not, ◌&&◌, ◌||◌, List, [], ◌∷◌, ◌++◌,
  leb, ltb, ◌==◌, keep, str_eq, if◌then◌else◌,
}
use safrochain_indexer.Prelude.Sets.{includes}
use safrochain_indexer.Paging.Query.{SortOrder, asc, desc, when_given}
use safrochain_indexer.Entities.{Block, Transaction, Message}

-- A row of the query: the transaction and the messages of its hash in the message table.
pub record TransactionRow : Type 0 where
  pub transaction : Transaction
  pub messages : List Message
  pub signer_text : String

-- Those of its partition as well: `m.partition_id = transaction.partition_id`.
abbrev pub in_partition : TransactionRow → List Message
in_partition r = keep (λ m. m.partition_id == r.transaction.partition_id) r.messages

pub data TransactionSortBy : Type 0 where
  height timestamp gas_used gas_wanted fee : TransactionSortBy

pub record TransactionFilter : Type 0 where
  pub success : Option Bool
  pub min_height : Option ℕ
  pub max_height : Option ℕ
  pub min_gas_used : Option ℕ
  pub max_gas_used : Option ℕ
  pub min_gas_wanted : Option ℕ
  pub max_gas_wanted : Option ℕ
  pub min_fee_amount : Option String
  pub max_fee_amount : Option String
  pub fee_denom : Option String
  pub memo : Option String
  pub signer : Option String
  pub message_types : List String
  pub addresses : List String
  pub validator : Option String
  pub date_from : Option ℕ
  pub date_to : Option ℕ

-- The texts handed to `andWhere`, one constructor for each, with their parameters.
-- `has_own_type` and `involves_own` are those of `getTransactions`, which compare the partition.
pub data TransactionCondition : Type 0 where
  success_is : Bool → TransactionCondition
  height_ge height_le height_lt : ℕ → TransactionCondition
  gas_used_ge gas_used_le gas_wanted_ge gas_wanted_le : ℕ → TransactionCondition
  memo_like signer_like : String → TransactionCondition
  has_message_type has_address : List String → TransactionCondition
  involves : String → TransactionCondition
  has_own_type involves_own : String → TransactionCondition
  block_from block_to : ℕ → TransactionCondition

-- A number that counts as given: not 0.
abbrev pub given_num : Option ℕ → Option ℕ
given_num none = none
given_num (some zero) = none
given_num (some (suc n)) = some (suc n)

-- A text that counts as given: not empty.
abbrev pub given_text : Option String → Option String
given_text none = none
given_text (some s) = if str_eq s "" then none else some s

-- A list that counts as given: not empty.
abbrev pub given_list : List String → Option (List String)
given_list [] = none
given_list (s ∷ ss) = some (s ∷ ss)

-- The pattern `%${text}%`.
abbrev pub containing : String → String
containing s = String.◌++◌ "%" (String.◌++◌ s "%")

-- No condition reads the three fee fields.
unfoldable pub build_transaction_query : TransactionFilter → List TransactionCondition
build_transaction_query f =
    when_given f.success success_is
    ++ (when_given (given_num f.min_height) height_ge
        ++ (when_given (given_num f.max_height) height_le
            ++ (when_given (given_num f.min_gas_used) gas_used_ge
                ++ (when_given (given_num f.max_gas_used) gas_used_le
                    ++ (when_given (given_num f.min_gas_wanted) gas_wanted_ge
                        ++ (when_given (given_num f.max_gas_wanted) gas_wanted_le
                            ++ (when_given (given_text f.memo) (λ s. memo_like (containing s))
                                ++ (when_given (given_text f.signer)
                                      (λ s. signer_like (containing s))
                                    ++ (when_given (given_list f.message_types) has_message_type
                                        ++ (when_given (given_list f.addresses) has_address
                                            ++ (when_given (given_text f.validator) involves
                                                ++ (when_given f.date_from block_from
                                                    ++ when_given f.date_to block_to))))))))))))

-- `EXISTS (SELECT 1 FROM message m WHERE ... AND test)`
unfoldable pub exists_message : (Message → Bool) → List Message → Bool
exists_message test [] = false
exists_message test (m ∷ ms) = test m || exists_message test ms

-- `xs && ys` on text arrays: they overlap.
unfoldable pub overlaps : List String → List String → Bool
overlaps [] ys = false
overlaps (x ∷ xs) ys = includes ys x || overlaps xs ys

-- A comparison with a missing block's timestamp is NULL, which WHERE takes as false.
abbrev pub block_time : (ℕ → Bool) → Option Block → Bool
block_time test none = false
block_time test (some b) = test b.timestamp

abbrev pub memo_matches : (String → Bool) → Option String → Bool
memo_matches test none = false
memo_matches test (some s) = test s

module _ (ilike : String → String → Bool) where
  -- What SQL makes of each condition on a row.
  unfoldable pub holds : TransactionCondition → TransactionRow → Bool
  unfolding exists_message overlaps
  holds (success_is b) r = if b then r.transaction.success else not r.transaction.success
  holds (height_ge n) r = leb n r.transaction.height
  holds (height_le n) r = leb r.transaction.height n
  holds (height_lt n) r = ltb r.transaction.height n
  holds (gas_used_ge n) r = leb n r.transaction.gas_used
  holds (gas_used_le n) r = leb r.transaction.gas_used n
  holds (gas_wanted_ge n) r = leb n r.transaction.gas_wanted
  holds (gas_wanted_le n) r = leb r.transaction.gas_wanted n
  holds (memo_like p) r = memo_matches (ilike p) r.transaction.memo
  holds (signer_like p) r = ilike p r.signer_text
  holds (has_message_type ts) r = exists_message (λ m. includes ts m.type_name) r.messages
  holds (has_address addrs) r =
      exists_message (λ m. overlaps m.involved_accounts_addresses addrs) r.messages
  holds (involves a) r = exists_message (λ m. includes m.involved_accounts_addresses a) r.messages
  holds (has_own_type t) r = exists_message (λ m. str_eq m.type_name t) (in_partition r)
  holds (involves_own a) r =
      exists_message (λ m. includes m.involved_accounts_addresses a) (in_partition r)
  holds (block_from t) r = block_time (λ u. leb t u) r.transaction.block
  holds (block_to t) r = block_time (λ u. leb u t) r.transaction.block

-- The DTO's `sort_by` to the column; an absent one means the height.
unfoldable pub sort_field : Option TransactionSortBy → TransactionSortBy
sort_field none = height
sort_field (some by) = by

unfoldable pub sort_order : Option SortOrder → SortOrder
sort_order none = desc
sort_order (some order) = order
