-- ===== src/Transactions/Listing.antt =====
-- `getTransactions` and `getTransactionsAdvanced`: their queries, and the rows and meta of a page.
-- The rows are processed into responses by `Preload.process_page`.
pub mod Laws
pub mod Advanced
use safrochain_indexer.Prelude.{
  ℕ, String, Option, none, some, Bool, true, false, not, ◌&&◌, ◌||◌, List, [], ◌∷◌, ◌++◌,
  if◌then◌else◌, length, ◌==◌, is_some,
}
use safrochain_indexer.Prelude.Int.{ℤ, negsuc}
use safrochain_indexer.Paging.Params.{
  ConfigService, PagePaginationInput, OffsetPaginationInput, normalize_page_pagination,
  normalize_offset_pagination,
}
use safrochain_indexer.Paging.Meta.{PaginationMeta, build_pagination_meta}
use safrochain_indexer.Paging.Query.{SelectQuery, SortOrder, desc, when_given}
use safrochain_indexer.Paging.Cursor.{cursor_set, next_cursor}
use safrochain_indexer.Transactions.Filters.{
  TransactionRow, TransactionSortBy, TransactionFilter, TransactionCondition, success_is, height_lt,
  has_own_type, involves_own, given_text, build_transaction_query, sort_field, sort_order,
}

-- `TransactionListDto`
pub record TransactionList : Type 0 where
  pub address : Option String
  pub message_type : Option String
  pub success : Option Bool
  pub page : PagePaginationInput
  pub cursor : Option ℕ

pub record TransactionPage : Type 0 where
  pub rows : List TransactionRow
  pub meta : PaginationMeta

abbrev pub height_of : TransactionRow → ℕ
height_of r = r.transaction.height

abbrev pub Rows : Type 0
Rows = SelectQuery TransactionCondition TransactionSortBy → List TransactionRow

-- The filters of `getTransactions`, in front of the cursor.
unfoldable pub list_filters : TransactionList → List TransactionCondition
list_filters f =
    when_given (given_text f.address) involves_own
    ++ (when_given (given_text f.message_type) has_own_type ++ when_given f.success success_is)

abbrev pub list_limit : ConfigService → TransactionList → ℕ
list_limit config f = (normalize_page_pagination f.page config).limit

unfoldable pub transactions_query :
    ConfigService → TransactionList → SelectQuery TransactionCondition TransactionSortBy
transactions_query config f = record {
  conditions = list_filters f ++ when_given (cursor_set f.cursor) height_lt;
  order_by = TransactionSortBy.height;
  order = desc;
  limit = some (list_limit config f);
  offset = none;
}

unfoldable pub get_transactions : Rows → ConfigService → TransactionList → TransactionPage
get_transactions get_many config f =
    let limit = list_limit config f in
    let rows = get_many (transactions_query config f) in
    record {
      rows = rows;
      meta = build_pagination_meta 1 limit (negsuc 0) (next_cursor height_of limit rows) none;
    }

-- The paging half of `TransactionFilterDto`.
pub record AdvancedPaging : Type 0 where
  pub window : OffsetPaginationInput
  pub cursor : Option ℕ
  pub sort_by : Option TransactionSortBy
  pub order : Option SortOrder

-- `sort_by === HEIGHT || !sort_by`
abbrev pub by_height : Option TransactionSortBy → Bool
by_height none = true
by_height (some TransactionSortBy.height) = true
by_height (some by) = false

abbrev pub advanced_limit : ConfigService → AdvancedPaging → ℕ
advanced_limit config p = (normalize_offset_pagination p.window config).limit

-- The query of the cursor path.
unfoldable pub cursor_query :
    ConfigService
    → TransactionFilter
    → AdvancedPaging
    → SelectQuery TransactionCondition TransactionSortBy
cursor_query config f p = record {
  conditions = build_transaction_query f ++ when_given (cursor_set p.cursor) height_lt;
  order_by = sort_field p.sort_by;
  order = sort_order p.order;
  limit = some (advanced_limit config p);
  offset = none;
}

-- The query of the offset path.
unfoldable pub offset_query :
    ConfigService
    → TransactionFilter
    → AdvancedPaging
    → SelectQuery TransactionCondition TransactionSortBy
offset_query config f p = record {
  conditions = build_transaction_query f;
  order_by = sort_field p.sort_by;
  order = sort_order p.order;
  limit = some (advanced_limit config p);
  offset = some (normalize_offset_pagination p.window config).offset;
}

unfoldable pub cursor_page : ℕ → List TransactionRow → TransactionPage
cursor_page limit rows = record {
  rows = rows;
  meta = build_pagination_meta 1 limit (negsuc 0) (next_cursor height_of limit rows) none;
}

unfoldable pub offset_page : ℕ → Option TransactionSortBy → List TransactionRow → TransactionPage
offset_page limit sort_by rows = record {
  rows = rows;
  meta =
      build_pagination_meta 1 limit (negsuc 0)
        (if by_height sort_by then next_cursor height_of limit rows else none)
        (some (length rows == limit));
}

unfoldable pub get_transactions_advanced :
    Rows → ConfigService → TransactionFilter → AdvancedPaging → TransactionPage
get_transactions_advanced get_many config f p =
    let limit = advanced_limit config p in
    if is_some (cursor_set p.cursor) && by_height p.sort_by
    then cursor_page limit (get_many (cursor_query config f p))
    else offset_page limit p.sort_by (get_many (offset_query config f p))
