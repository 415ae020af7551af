-- ===== src/Addresses/Filters.antt =====
-- `buildAddressTransactionQuery`, `getAddressTransactionSortField` and the DTO
-- `AddressTransactionFilterDto`: the conditions of an address's transactions. PostgreSQL's ILIKE is
-- the argument `ilike pattern text`, and `types_module` says which rows the table message_type has.
pub mod Laws
use Prim.Native.String.{String}
use safrochain_indexer.Prelude.{
  ℕ, Option, none, some, Bool, true, false, not, ◌||◌, List, [], ◌∷◌, ◌++◌, leb, ltb, str_eq,
  if◌then◌else◌,
}
use safrochain_indexer.Prelude.Sets.{includes}
use safrochain_indexer.Json.Value.{get}
use safrochain_indexer.Paging.Query.{SortOrder, desc, when, when_given}
use safrochain_indexer.Entities.{Message}
use safrochain_indexer.Transactions.Filters.{
  TransactionRow, in_partition, TransactionSortBy, height, given_num, given_text, given_list,
  containing, exists_message, overlaps, block_time, memo_matches,
}
use safrochain_indexer.Addresses.Response.{Direction, sent, received, both, equals_text}

pub record AddressTransactionFilter : Type 0 where
  pub success : Option Bool
  pub min_height : Option ℕ
  pub max_height : Option ℕ
  pub min_gas_used : Option ℕ
  pub max_gas_used : Option ℕ
  pub min_gas_wanted : Option ℕ
  pub max_gas_wanted : Option ℕ
  pub min_fee_amount : Option String
  pub max_fee_amount : Option String
  pub fee_denom : Option String
  pub memo : Option String
  pub message_types : List String
  pub modules : List String
  pub direction : Option Direction
  pub min_amount : Option String
  pub max_amount : Option String
  pub denom : Option String
  pub date_from : Option ℕ
  pub date_to : Option ℕ
  pub search : Option String
  pub sender_only : Bool
  pub receiver_only : Bool
  pub include_failed : Bool

-- The texts handed to `where` and `andWhere`, one constructor for each, with their parameters.
pub data AddressCondition : Type 0 where
  involves : String → AddressCondition
  success_is : Bool → AddressCondition
  height_ge height_le height_lt : ℕ → AddressCondition
  gas_used_ge gas_used_le gas_wanted_ge gas_wanted_le : ℕ → AddressCondition
  memo_like : String → AddressCondition
  has_message_type has_module : List String → AddressCondition
  sends_from sends_to : String → AddressCondition
  search_like : String → AddressCondition
  block_from block_to : ℕ → AddressCondition

-- The `switch` on the direction, where "both" has no case.
unfoldable pub direction_condition : String → Option Direction → List AddressCondition
direction_condition address none = []
direction_condition address (some sent) = sends_from address ∷ []
direction_condition address (some received) = sends_to address ∷ []
direction_condition address (some both) = []

-- The filters on the row of the transaction.
unfoldable pub column_conditions : AddressTransactionFilter → List AddressCondition
column_conditions f =
    when_given f.success success_is
    ++ (when_given (given_num f.min_height) height_ge
        ++ (when_given (given_num f.max_height) height_le
            ++ (when_given (given_num f.min_gas_used) gas_used_ge
                ++ (when_given (given_num f.max_gas_used) gas_used_le
                    ++ (when_given (given_num f.min_gas_wanted) gas_wanted_ge
                        ++ (when_given (given_num f.max_gas_wanted) gas_wanted_le
                            ++ when_given (given_text f.memo) (λ s. memo_like (containing s))))))))

-- The filters on its messages and on its block.
unfoldable pub message_conditions : String → AddressTransactionFilter → List AddressCondition
unfolding direction_condition
message_conditions address f =
    when_given (given_list f.message_types) has_message_type
    ++ (when_given (given_list f.modules) has_module
        ++ (direction_condition address f.direction
            ++ (when f.sender_only (sends_from address)
                ++ (when f.receiver_only (sends_to address)
                    ++ (when_given (given_text f.search) (λ s. search_like (containing s))
                        ++ (when_given f.date_from block_from ++ when_given f.date_to block_to))))))

unfoldable pub build_address_transaction_query :
    String → AddressTransactionFilter → List AddressCondition
unfolding column_conditions message_conditions
build_address_transaction_query address f =
    involves address ∷ (column_conditions f ++ message_conditions address f)

module _ (ilike : String → String → Bool) (value_text : Message → String)
    (types_module : String → String → Bool) where
  -- A message of one of the modules, by the join with the table of types.
  unfoldable pub of_modules : List String → Message → Bool
  of_modules [] m = false
  of_modules (n ∷ ns) m = types_module m.type_name n || of_modules ns m

  -- What SQL makes of each condition on a row.
  unfoldable pub address_holds : AddressCondition → TransactionRow → Bool
  unfolding exists_message of_modules get
  address_holds (involves a) r =
      exists_message (λ m. includes m.involved_accounts_addresses a) (in_partition r)
  address_holds (success_is b) r = if b then r.transaction.success else not r.transaction.success
  address_holds (height_ge n) r = leb n r.transaction.height
  address_holds (height_le n) r = leb r.transaction.height n
  address_holds (height_lt n) r = ltb r.transaction.height n
  address_holds (gas_used_ge n) r = leb n r.transaction.gas_used
  address_holds (gas_used_le n) r = leb r.transaction.gas_used n
  address_holds (gas_wanted_ge n) r = leb n r.transaction.gas_wanted
  address_holds (gas_wanted_le n) r = leb r.transaction.gas_wanted n
  address_holds (memo_like p) r = memo_matches (ilike p) r.transaction.memo
  address_holds (has_message_type ts) r =
      exists_message (λ m. includes ts m.type_name) (in_partition r)
  address_holds (has_module ns) r = exists_message (of_modules ns) (in_partition r)
  address_holds (sends_from a) r =
      exists_message (λ m. equals_text (get "from_address" m.value) a) (in_partition r)
  address_holds (sends_to a) r =
      exists_message (λ m. equals_text (get "to_address" m.value) a) (in_partition r)
  address_holds (search_like p) r =
      ilike p r.transaction.hash
      || (memo_matches (ilike p) r.transaction.memo
          || exists_message (λ m. ilike p (value_text m)) (in_partition r))
  address_holds (block_from t) r = block_time (λ u. leb t u) r.transaction.block
  address_holds (block_to t) r = block_time (λ u. leb u t) r.transaction.block
