-- ===== src/Transactions/Offsets.antt =====
-- `searchTransactions`, `getTransactionsByMessageType`, `getTransactionsByValidator` and
-- `getTransactionsByBlockRange`: listings that are paged by offset. The rows are processed into
-- responses by `Preload.process_page`.
pub mod Laws
mod Tests
use Prim.Native.String.{String}
use safrochain_indexer.Prelude.{
  ℕ, Option, none, some, Bool, false, List, [], ◌∷◌, map, leb, str_eq, ◌&&◌, ◌||◌,
}
use safrochain_indexer.Prelude.Int.{ℤ}
use safrochain_indexer.Prelude.Sets.{includes}
use safrochain_indexer.Entities.{Message}
use safrochain_indexer.Paging.Params.{
  ConfigService, OffsetPaginationInput, normalize_offset_pagination,
}
use safrochain_indexer.Paging.Query.{SelectQuery, desc, when_given}
use safrochain_indexer.Transactions.Filters.{
  TransactionRow, TransactionSortBy, given_text, containing, exists_message, memo_matches,
}
use safrochain_indexer.Transactions.Listing.{TransactionPage, cursor_page}

-- The texts of the four queries, with their parameters.
pub data OffsetCondition : Type 0 where
  has_type : String → OffsetCondition
  involves : String → OffsetCondition
  between : ℕ → ℕ → OffsetCondition
  query_like : String → OffsetCondition

-- A row of the search's join: the transaction and one of its messages, if it has any.
pub record SearchRow : Type 0 where
  pub row : TransactionRow
  pub message : Option Message

abbrev pub offset_limit : ConfigService → OffsetPaginationInput → ℕ
offset_limit config window = (normalize_offset_pagination window config).limit

-- Newest first, with the window's limit and offset.
unfoldable pub window_query :
    ConfigService
    → List OffsetCondition
    → OffsetPaginationInput
    → SelectQuery OffsetCondition TransactionSortBy
window_query config conditions window = record {
  conditions = conditions;
  order_by = TransactionSortBy.height;
  order = desc;
  limit = some (offset_limit config window);
  offset = some (normalize_offset_pagination window config).offset;
}

abbrev pub OffsetRows : Type 0
OffsetRows = SelectQuery OffsetCondition TransactionSortBy → List TransactionRow

-- The rows of a window, and the meta with the cursor of its last row.
unfoldable pub window_page :
    OffsetRows → ConfigService → List OffsetCondition → OffsetPaginationInput → TransactionPage
unfolding window_query
window_page get_many config conditions window =
    cursor_page (offset_limit config window) (get_many (window_query config conditions window))

unfoldable pub get_transactions_by_message_type :
    OffsetRows → ConfigService → String → OffsetPaginationInput → TransactionPage
unfolding window_page
get_transactions_by_message_type get_many config message_type window =
    window_page get_many config (has_type message_type ∷ []) window

unfoldable pub get_transactions_by_validator :
    OffsetRows → ConfigService → String → OffsetPaginationInput → TransactionPage
unfolding window_page
get_transactions_by_validator get_many config validator window =
    window_page get_many config (involves validator ∷ []) window

unfoldable pub get_transactions_by_block_range :
    OffsetRows → ConfigService → ℕ → ℕ → OffsetPaginationInput → TransactionPage
unfolding window_page
get_transactions_by_block_range get_many config min_height max_height window =
    window_page get_many config (between min_height max_height ∷ []) window

-- `if (search.q)`
unfoldable pub search_conditions : Option String → List OffsetCondition
search_conditions q = when_given (given_text q) (λ s. query_like (containing s))

unfoldable pub search_transactions :
    (SelectQuery OffsetCondition TransactionSortBy → List SearchRow)
    → ConfigService
    → Option String
    → OffsetPaginationInput
    → TransactionPage
unfolding window_page search_conditions
search_transactions get_many config q window =
    window_page (λ query. map (λ r. r.row) (get_many query)) config (search_conditions q) window

-- What SQL makes of a condition on a transaction, for the listings without the search.
unfoldable pub offset_holds : OffsetCondition → TransactionRow → Bool
unfolding exists_message
offset_holds (has_type t) r = exists_message (λ m. str_eq t m.type_name) r.messages
offset_holds (involves a) r =
    exists_message (λ m. includes m.involved_accounts_addresses a) r.messages
offset_holds (between lo hi) r = leb lo r.transaction.height && leb r.transaction.height hi
offset_holds (query_like p) r = false
