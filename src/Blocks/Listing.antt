-- ===== src/Blocks/Listing.antt =====
-- `getBlocks`: the query and the page of blocks, newest first.
pub mod Laws
use safrochain_indexer.Prelude.{
  ℕ, String, Option, none, some, Bool, true, false, List, [], ◌∷◌, ◌++◌, map, leb, ltb, min, str_eq,
  if◌then◌else◌, get_or_else,
}
use safrochain_indexer.Prelude.Int.{ℤ, pos, negsuc, at_least}
use safrochain_indexer.Paging.Meta.{PaginationMeta, build_pagination_meta}
use safrochain_indexer.Paging.Query.{SelectQuery, SortOrder, desc, when_given}
use safrochain_indexer.Paging.Cursor.{CursorPage, cursor_set, next_cursor}
use safrochain_indexer.DateFilters.Calendar.{Clock}
use safrochain_indexer.DateFilters.Conditions.{
  DateFilter, DateCondition, Moment, apply_date_filters, holds_at,
}
use safrochain_indexer.Transactions.Filters.{given_text}
use safrochain_indexer.Entities.{Block}

-- dto/block.dto.ts
pub record BlockList : Type 0 where
  pub proposer : Option String
  pub min_txs : Option ℕ
  pub max_txs : Option ℕ
  pub dates : DateFilter
  pub limit : Option ℤ
  pub cursor : Option ℕ

pub data BlockCondition : Type 0 where
  proposer_is : String → BlockCondition
  num_txs_ge num_txs_le height_lt : ℕ → BlockCondition
  timestamp : DateCondition → BlockCondition

pub data BlockColumn : Type 0 where
  height : BlockColumn

-- `filters.limit || 20`, where 0 counts as absent.
abbrev pub or_twenty : Option ℤ → ℤ
or_twenty none = pos 20
or_twenty (some z) = elim z [ pos n ↦ pos (if leb n 0 then 20 else n) | negsuc n ↦ negsuc n ]

-- `Math.min(Math.max(filters.limit || 20, 1), 100)`
unfoldable pub block_limit : Option ℤ → ℕ
block_limit limit = min (at_least 1 (or_twenty limit)) 100

-- The filters, in front of the cursor.
unfoldable pub block_filters : Clock → BlockList → List BlockCondition
block_filters clock f =
    when_given (given_text f.proposer) proposer_is
    ++ (when_given f.min_txs num_txs_ge
        ++ (when_given f.max_txs num_txs_le ++ map timestamp (apply_date_filters clock f.dates)))

unfoldable pub blocks_query : Clock → BlockList → SelectQuery BlockCondition BlockColumn
blocks_query clock f = record {
  conditions = block_filters clock f ++ when_given (cursor_set f.cursor) height_lt;
  order_by = height;
  order = desc;
  limit = some (block_limit f.limit);
  offset = none;
}

pub record BlockPage : Type 0 where
  pub rows : List Block
  pub meta : PaginationMeta

unfoldable pub get_blocks :
    (SelectQuery BlockCondition BlockColumn → List Block) → Clock → BlockList → BlockPage
get_blocks get_many clock f =
    let limit = block_limit f.limit in
    let blocks = get_many (blocks_query clock f) in
    record {
      rows = blocks;
      meta =
          build_pagination_meta 1 limit (negsuc 0) (next_cursor (λ b. b.height) limit blocks) none;
    }

abbrev pub proposed_by : Option String → String → Bool
proposed_by none s = false
proposed_by (some p) s = str_eq p s

-- What SQL makes of each condition; `moment` is the block's timestamp as its date functions see it.
unfoldable pub block_holds : (Block → Moment) → BlockCondition → Block → Bool
block_holds moment (proposer_is s) b = proposed_by b.proposer_address s
block_holds moment (num_txs_ge n) b = leb n b.num_txs
block_holds moment (num_txs_le n) b = leb b.num_txs n
block_holds moment (height_lt n) b = ltb b.height n
block_holds moment (timestamp c) b = holds_at (moment b) c
