-- ===== src/Blocks/Listing/Laws.antt =====
-- Paging through the blocks by cursor.
use safrochain_indexer.Prelude.{
  ℕ, ◌≤◌, ◌<◌, Option, none, some, ◌&&◌, List, ◌++◌, take, keep, all, length, ◌≡◌, refl, ap, ◌∙◌,
  arith,
}
use safrochain_indexer.Prelude.Int.{ℤ}
use safrochain_indexer.Paging.Query.{SelectQuery, SortOrder, desc, when_given, Answers}
use safrochain_indexer.Paging.Cursor.{
  CursorPage, cursor_set, next_cursor, below, IsDescending, follow,
}
use safrochain_indexer.Paging.Cursor.Laws.{follow_all, Serves, IsDescending-keep, keep-and}
use safrochain_indexer.Paging.Meta.{build_pagination_meta}
use safrochain_indexer.Transactions.Filters.Laws.{all-append}
use safrochain_indexer.DateFilters.Calendar.{Clock}
use safrochain_indexer.DateFilters.Conditions.{Moment}
use safrochain_indexer.Entities.{Block}
use safrochain_indexer.Blocks.Listing.{
  BlockList, BlockCondition, height_lt, BlockColumn, height, block_limit, block_filters,
  blocks_query, get_blocks, block_holds,
}

-- The listing as a client sees it, one cursor to a request.
abbrev pub serve_blocks :
    (SelectQuery BlockCondition BlockColumn → List Block)
    → Clock
    → BlockList
    → Option ℕ
    → CursorPage Block
serve_blocks get_many clock f cursor =
    let page = get_blocks get_many clock (record f { cursor = cursor }) in
    record { rows = page.rows; next_cursor = page.meta.next_cursor }

block_limit_bounds : (limit : Option ℤ) → (1 ≤ block_limit limit) × (block_limit limit ≤ 100)
unfolding block_limit
block_limit_bounds limit = omega arith

module _ (moment : Block → Moment) (sorted : BlockColumn → SortOrder → List Block)
    (get_many : SelectQuery BlockCondition BlockColumn → List Block)
    (answers : Answers (block_holds moment) sorted get_many) (clock : Clock) (f : BlockList) where
  -- The blocks that pass the filters, newest first.
  abbrev pub matching : List Block
  matching =
      keep (λ b. all (λ c. block_holds moment c b) (block_filters clock f)) (sorted height desc)

  cursor_meets :
      (c : Option ℕ) (b : Block)
      → all (λ k. block_holds moment k b) (when_given c height_lt) ≡ below (λ b. b.height) c b
  unfolding block_holds
  cursor_meets none b = refl
  cursor_meets (some n) b = ground arith

  kept :
      (c : Option ℕ)
      → keep
          (λ b.
            all
              (λ k. block_holds moment k b)
              (block_filters clock f ++ when_given (cursor_set c) height_lt))
          (sorted height desc)
        ≡ keep (below (λ b. b.height) (cursor_set c)) matching
  kept c = keep-and _ _ _ (sorted height desc) (λ b.
      all-append (λ k. block_holds moment k b) (block_filters clock f)
        (when_given (cursor_set c) height_lt)
      ∙ ap (λ x. all (λ k. block_holds moment k b) (block_filters clock f) && x)
          (cursor_meets (cursor_set c) b))

  serve_blocks-Serves :
      Serves (λ b. b.height) (block_limit f.limit) matching (serve_blocks get_many clock f)
  unfolding get_blocks blocks_query build_pagination_meta block_filters block_limit
  serve_blocks-Serves c =
      ap
        (λ rows. record {
          rows = rows;
          next_cursor = next_cursor (λ b. b.height) (block_limit f.limit) rows;
        })
        (answers (blocks_query clock (record f { cursor = c }))
          ∙ ap (take (block_limit f.limit)) (kept c))

  -- A client that follows `next_cursor` from the first page gets every block that passes the
  -- filters, once and newest first, and needs at most one request more than there are such blocks;
  -- this holds as heights are from 1 and no two blocks share one.
  pub get_blocks-follow :
      (fuel : ℕ)
      → IsDescending (λ b. b.height) (sorted height desc)
      → length matching < fuel
      → follow (λ b. b.height) (serve_blocks get_many clock f) fuel none ≡ some matching
  get_blocks-follow fuel d enough =
      follow_all (λ b. b.height) (block_limit f.limit) matching (serve_blocks get_many clock f)
        serve_blocks-Serves fuel (IsDescending-keep (λ b. b.height) _ (sorted height desc) d)
        (block_limit_bounds f.limit).0 enough
