-- ===== src/Addresses/Summary.antt =====
-- `getAddressTransactions` and `getRecentTransactions`: what the plain listings say of a
-- transaction. `JSON.stringify` is the argument `stringify`; a block's missing timestamp is none.
pub mod Laws
use Prim.Native.String.{String}
use safrochain_indexer.Prelude.{
  ℕ, Option, none, some, Bool, List, [], ◌∷◌, ◌++◌, map, keep, length, if◌then◌else◌,
}
use safrochain_indexer.Prelude.Int.{negsuc}
use safrochain_indexer.Prelude.Sets.{unique}
use safrochain_indexer.Json.Value.{Value, arr, nil, items_list}
use safrochain_indexer.Json.Text.{codes, includes_codes}
use safrochain_indexer.Entities.{Block, Transaction}
use safrochain_indexer.Paging.Params.{ConfigService, PagePaginationInput, normalize_page_pagination}
use safrochain_indexer.Paging.Meta.{PaginationMeta, build_pagination_meta}
use safrochain_indexer.Paging.Query.{SelectQuery, desc, when_given}
use safrochain_indexer.Paging.Cursor.{cursor_set, next_cursor}
use safrochain_indexer.Transactions.Filters.{TransactionRow, TransactionSortBy}
use safrochain_indexer.Transactions.Listing.{height_of}
use safrochain_indexer.Transactions.Response.{message_type, json_of}
use safrochain_indexer.Addresses.Types.{
  get_message_type, extract_amount_from_message, extract_addresses_from_transaction,
}
use safrochain_indexer.Addresses.Filters.{AddressCondition, involves, height_lt}
use mathlib.Core.Option

abbrev pub block_timestamp : Option Block → Option ℕ
block_timestamp none = none
block_timestamp (some b) = some b.timestamp

-- An element of a `flatMap`: an array is spread, another value stands for itself.
abbrev pub flat : Value → List Value
flat (arr xs) = items_list xs
flat v = v ∷ []

-- One entry of the listing.
pub record AddressTransaction : Type 0 where
  pub hash : String
  pub height : ℕ
  pub timestamp : Option ℕ
  pub type_name : String
  pub amount : List Value
  pub success : Bool
  pub gas_used : ℕ
  pub fee : Value
  pub messages : List Value
  pub message_count : ℕ
  pub message_types : List String
  pub involved_addresses : List String

-- One entry of the recent transactions.
pub record RecentTransaction : Type 0 where
  pub hash : String
  pub height : ℕ
  pub timestamp : Option ℕ
  pub type_name : String
  pub amount : Value
  pub success : Bool

-- `messageTypes[0] || "unknown"`
abbrev pub first_or_unknown : List String → String
first_or_unknown [] = "unknown"
first_or_unknown (t ∷ ts) = t

abbrev pub amount_of : Value → Value
amount_of msg = extract_amount_from_message msg (message_type msg)

-- `relevantMessages.flatMap(...)`
unfoldable pub flat_amounts : List Value → List Value
flat_amounts [] = []
flat_amounts (msg ∷ msgs) = flat (amount_of msg) ++ flat_amounts msgs

module _ (stringify : Value → String) where
  -- `JSON.stringify(msg).includes(address)`
  unfoldable pub mentions : String → Value → Bool
  unfolding includes_codes
  mentions address msg = includes_codes (codes (stringify msg)) (codes address)

  -- `transaction.messages?.filter(...) || []`
  unfoldable pub relevant_messages : String → Transaction → List Value
  unfolding mentions
  relevant_messages address tx = keep (mentions address) (json_of tx.messages)

  -- `transaction.messages?.find(...)`
  unfoldable pub find_message : String → List Value → Option Value
  unfolding mentions
  find_message address [] = none
  find_message address (msg ∷ msgs) =
      let rest = find_message address msgs in if mentions address msg then some msg else rest

  -- The body of `transactions.map(...)` in `getAddressTransactions`.
  unfoldable pub address_transaction : String → Transaction → AddressTransaction
  unfolding relevant_messages flat_amounts get_message_type message_type
  address_transaction address tx =
      let relevant = relevant_messages address tx in
      record {
        hash = tx.hash;
        height = tx.height;
        timestamp = block_timestamp tx.block;
        type_name = first_or_unknown (map (λ msg. get_message_type (message_type msg)) relevant);
        amount = flat_amounts relevant;
        success = tx.success;
        gas_used = tx.gas_used;
        fee = tx.fee;
        messages = relevant;
        message_count = length relevant;
        message_types = unique (map message_type relevant);
        involved_addresses = extract_addresses_from_transaction tx;
      }

  abbrev recent_type : Option Value → String
  recent_type none = "unknown"
  recent_type (some msg) = get_message_type (message_type msg)

  abbrev recent_amount : Option Value → Value
  recent_amount none = arr nil
  recent_amount (some msg) = amount_of msg

  -- The body of `transactions.map(...)` in `getRecentTransactions`.
  unfoldable pub recent_transaction : String → Transaction → RecentTransaction
  unfolding find_message get_message_type message_type extract_amount_from_message
  recent_transaction address tx =
      let relevant = find_message address (json_of tx.messages) in
      record {
        hash = tx.hash;
        height = tx.height;
        timestamp = block_timestamp tx.block;
        type_name = recent_type relevant;
        amount = recent_amount relevant;
        success = tx.success;
      }

abbrev pub AddressRows : Type 0
AddressRows = SelectQuery AddressCondition TransactionSortBy → List TransactionRow

-- The queries of the two listings.
unfoldable pub address_query :
    String → ℕ → Option ℕ → SelectQuery AddressCondition TransactionSortBy
address_query address limit cursor = record {
  conditions = involves address ∷ when_given (cursor_set cursor) height_lt;
  order_by = TransactionSortBy.height;
  order = desc;
  limit = some limit;
  offset = none;
}

pub record AddressPage : Type 0 where
  pub rows : List AddressTransaction
  pub meta : PaginationMeta

unfoldable pub get_address_transactions :
    (Value → String)
    → AddressRows
    → ConfigService
    → String
    → PagePaginationInput
    → Option ℕ
    → AddressPage
unfolding address_query address_transaction
get_address_transactions stringify get_many config address page cursor =
    let limit = (normalize_page_pagination page config).limit in
    let rows = get_many (address_query address limit cursor) in
    record {
      rows = map (λ r. address_transaction stringify address r.transaction) rows;
      meta = build_pagination_meta 1 limit (negsuc 0) (next_cursor height_of limit rows) none;
    }

unfoldable pub get_recent_transactions :
    (Value → String) → AddressRows → String → ℕ → List RecentTransaction
unfolding address_query recent_transaction
get_recent_transactions stringify get_many address limit =
    map (λ r. recent_transaction stringify address r.transaction)
      (get_many (address_query address limit none))
