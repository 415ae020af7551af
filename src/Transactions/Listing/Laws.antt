-- ===== src/Transactions/Listing/Laws.antt =====
-- What the transaction listings return, and the rows that paging by height loses.
use safrochain_indexer.Prelude.{
  ℕ, ◌≤◌, ◌<◌, Option, none, some, Bool, ◌&&◌, List, ◌∷◌, ◌++◌, All, take, keep, all, last?, length,
  ◌≡◌, refl, ap, ◌∙◌, arith, String,
}
use safrochain_indexer.Paging.Params.{
  ConfigService, get_max_limit, normalize_page_pagination-IsWindow,
}
use safrochain_indexer.Paging.Cursor.Liveness.{
  IsNewestFirst, IsNewestFirst-keep, Reads, follow_ends,
}
use safrochain_indexer.Paging.Query.{SortOrder, desc, when_given, Answers}
use safrochain_indexer.Paging.Cursor.{CursorPage, cursor_set, next_cursor, below}
use safrochain_indexer.Paging.Cursor.Laws.{Serves, tied_row_lost, keep-and}
use safrochain_indexer.Paging.Meta.{build_pagination_meta}
use safrochain_indexer.Transactions.Filters.{TransactionRow, TransactionSortBy, height_lt, holds}
use safrochain_indexer.Transactions.Filters.Laws.{all-append}
use safrochain_indexer.Transactions.Listing.{
  TransactionList, height_of, Rows, list_filters, list_limit, transactions_query, get_transactions,
}

abbrev pub serve_transactions :
    Rows → ConfigService → TransactionList → Option ℕ → CursorPage TransactionRow
serve_transactions get_many config f cursor =
    let page = get_transactions get_many config (record f { cursor = cursor }) in
    record { rows = page.rows; next_cursor = page.meta.next_cursor }

module _ (ilike : String → String → Bool)
    (sorted : TransactionSortBy → SortOrder → List TransactionRow) (get_many : Rows)
    (answers : Answers (holds ilike) sorted get_many) (config : ConfigService) where
  cursor_meets :
      (c : Option ℕ) (r : TransactionRow)
      → all (λ k. holds ilike k r) (when_given c height_lt) ≡ below height_of c r
  unfolding holds
  cursor_meets none r = refl
  cursor_meets (some n) r = ground arith

  module _ (f : TransactionList) where
    -- The transactions that pass the filters, newest first.
    abbrev pub matching : List TransactionRow
    matching =
        keep (λ r. all (λ k. holds ilike k r) (list_filters f))
          (sorted TransactionSortBy.height desc)

    kept :
        (c : Option ℕ)
        → keep
            (λ r.
              all (λ k. holds ilike k r) (list_filters f ++ when_given (cursor_set c) height_lt))
            (sorted TransactionSortBy.height desc)
          ≡ keep (below height_of (cursor_set c)) matching
    kept c = keep-and _ _ _ (sorted TransactionSortBy.height desc) (λ r.
        all-append (λ k. holds ilike k r) (list_filters f) (when_given (cursor_set c) height_lt)
        ∙ ap (λ x. all (λ k. holds ilike k r) (list_filters f) && x)
            (cursor_meets (cursor_set c) r))

    serve_transactions-Serves :
        Serves height_of (list_limit config f) matching (serve_transactions get_many config f)
    unfolding get_transactions transactions_query build_pagination_meta list_filters
    serve_transactions-Serves c =
        ap
          (λ rows. record {
            rows = rows;
            next_cursor = next_cursor height_of (list_limit config f) rows;
          })
          (answers (transactions_query config (record f { cursor = c }))
            ∙ ap (take (list_limit config f)) (kept c))

    -- Where the last transaction of a first page and the next one stand in one block, the next one
    -- is lost: the page ends in front of it, the cursor is its height, and every transaction of
    -- the page at that cursor is of a lower height.
    pub get_transactions_tied :
        (xs zs : List TransactionRow) (x y : TransactionRow)
        → matching ≡ xs ++ y ∷ zs
        → length xs ≡ list_limit config f
        → last? xs ≡ some x
        → height_of x ≡ height_of y
        → 1 ≤ height_of y
        → ((serve_transactions get_many config f none).rows ≡ xs)
          × ((serve_transactions get_many config f none).next_cursor ≡ some (height_of y))
          × All
              (λ r. height_of r < height_of y)
              (serve_transactions get_many config f (some (height_of y))).rows
    get_transactions_tied xs zs x y split full is_last tied y_pos =
        tied_row_lost height_of (list_limit config f) matching
          (serve_transactions get_many config f) serve_transactions-Serves xs zs x y split full
          is_last tied y_pos

    -- A client that follows the cursors of `getTransactions` comes to the end within one request
    -- more than there are transactions that pass the filters. It has then read only such
    -- transactions, in the order of the table and none twice, and one at least of every block that
    -- has any.
    pub get_transactions-Reads :
        (fuel : ℕ)
        → IsNewestFirst height_of (sorted TransactionSortBy.height desc)
        → 1 ≤ get_max_limit config
        → length matching < fuel
        → Reads height_of (serve_transactions get_many config f) fuel none matching
    get_transactions-Reads fuel d h enough =
        follow_ends height_of (list_limit config f) matching (serve_transactions get_many config f)
          serve_transactions-Serves fuel (IsNewestFirst-keep height_of _ _ d)
          (normalize_page_pagination-IsWindow f.page config h).limit_pos enough
