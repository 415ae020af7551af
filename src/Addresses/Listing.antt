-- ===== src/Addresses/Listing.antt =====
-- `getAddressTransactionsAdvanced`: its queries, the page of rows and the responses made of them.
-- `AddressTransactionSortBy` has the columns of the transaction service's `TransactionSortBy`. The
-- join with the block repeats no transaction.
pub mod Laws
use Prim.Native.String.{String}
use safrochain_indexer.Prelude.{
  ℕ, Option, none, some, List, [], ◌∷◌, ◌++◌, ◌&&◌, if◌then◌else◌, is_some, ◌>>=◌,
}
use safrochain_indexer.Amounts.{BigInts}
use safrochain_indexer.Entities.{Message}
use safrochain_indexer.Paging.Params.{ConfigService, normalize_offset_pagination}
use safrochain_indexer.Paging.Meta.{PaginationMeta}
use safrochain_indexer.Paging.Query.{SelectQuery, when_given}
use safrochain_indexer.Paging.Cursor.{cursor_set}
use safrochain_indexer.Transactions.Filters.{
  TransactionRow, TransactionSortBy, sort_field, sort_order,
}
use safrochain_indexer.Transactions.Listing.{
  TransactionPage, AdvancedPaging, advanced_limit, by_height, cursor_page, offset_page,
}
use safrochain_indexer.Addresses.Filters.{
  AddressTransactionFilter, AddressCondition, height_lt, build_address_transaction_query,
}
use safrochain_indexer.Addresses.Response.{Includes, AddressResponse, address_response}
use safrochain_indexer.Addresses.Summary.{AddressRows}

unfoldable pub address_cursor_query :
    ConfigService
    → String
    → AddressTransactionFilter
    → AdvancedPaging
    → SelectQuery AddressCondition TransactionSortBy
unfolding sort_field sort_order
address_cursor_query config address f p = record {
  conditions =
      build_address_transaction_query address f ++ when_given (cursor_set p.cursor) height_lt;
  order_by = sort_field p.sort_by;
  order = sort_order p.order;
  limit = some (advanced_limit config p);
  offset = none;
}

unfoldable pub address_offset_query :
    ConfigService
    → String
    → AddressTransactionFilter
    → AdvancedPaging
    → SelectQuery AddressCondition TransactionSortBy
unfolding sort_field sort_order
address_offset_query config address f p = record {
  conditions = build_address_transaction_query address f;
  order_by = sort_field p.sort_by;
  order = sort_order p.order;
  limit = some (advanced_limit config p);
  offset = some (normalize_offset_pagination p.window config).offset;
}

-- The rows and the meta of either path.
unfoldable pub get_address_rows :
    AddressRows
    → ConfigService
    → String
    → AddressTransactionFilter
    → AdvancedPaging
    → TransactionPage
get_address_rows get_many config address f p =
    let limit = advanced_limit config p in
    if is_some (cursor_set p.cursor) && by_height p.sort_by
    then cursor_page limit (get_many (address_cursor_query config address f p))
    else offset_page limit p.sort_by (get_many (address_offset_query config address f p))

-- What the two repositories and the clock answer.
pub record AddressSource : Type 0 where
  pub numbers : BigInts
  pub get_many : AddressRows
  pub find_messages : String → List Message
  pub now : ℕ

-- `Promise.all(transactions.map((tx) => this.processAddressTransactionResponse(...)))`: none if one
-- of them is rejected.
unfoldable pub process_rows :
    AddressSource → Includes → String → List TransactionRow → Option (List AddressResponse)
unfolding address_response
process_rows source includes address [] = some []
process_rows source includes address (r ∷ rows) = do
  answer ←
      address_response source.numbers source.now includes address r.transaction
        (source.find_messages r.transaction.hash)
  answers ← process_rows source includes address rows
  some (answer ∷ answers)

pub record AdvancedPage : Type 0 where
  pub answers : List AddressResponse
  pub meta : PaginationMeta

unfoldable pub get_address_transactions_advanced :
    AddressSource
    → ConfigService
    → Includes
    → String
    → AddressTransactionFilter
    → AdvancedPaging
    → Option AdvancedPage
unfolding get_address_rows process_rows
get_address_transactions_advanced source config includes address f p =
    let page = get_address_rows source.get_many config address f p in
    process_rows source includes address page.rows >>= λ answers.
    some (record { answers = answers; meta = page.meta })
