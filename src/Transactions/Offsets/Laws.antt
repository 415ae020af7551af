-- ===== src/Transactions/Offsets/Laws.antt =====
-- What the listings paged by offset answer.
use Prim.Native.String.{String}
use safrochain_indexer.Prelude.{
  ℕ, suc, ◌≤◌, ◌<◌, Option, none, some, Bool, true, false, ◌&&◌, List, [], ◌∷◌, All, take, drop,
  keep, all, last?, length, ltb, leb, ◌==◌, ◌≡◌, refl, fun_ext, ap, ◌∙◌, arith, if◌then◌else◌,
  is_some, length-take, str_eq, and-eq-true, max,
}
use safrochain_indexer.Prelude.Int.{ℤ, pos}
use safrochain_indexer.Prelude.Sets.{includes}
use safrochain_indexer.Paging.Params.{
  ConfigService, OffsetPaginationInput, get_max_limit, normalize_offset_pagination,
  normalize_offset_pagination-IsWindow,
}
use safrochain_indexer.Paging.Query.{SortOrder, desc, Answers, AnswersOnce, skip}
use safrochain_indexer.Paging.Cursor.{next_cursor}
use safrochain_indexer.Paging.Cursor.Laws.{All-imp, keep-All, All-take}
use safrochain_indexer.Paging.Meta.{build_pagination_meta}
use safrochain_indexer.Paging.Offsets.{OffsetPage, page_at, follow_offsets, follow_offsets-all}
use safrochain_indexer.Transactions.Filters.{TransactionRow, TransactionSortBy, exists_message}
use safrochain_indexer.Transactions.Listing.{cursor_page, height_of}
use safrochain_indexer.Transactions.Listing.Advanced.{
  same_transaction, All-skip, All-once, length-once,
}
use safrochain_indexer.Transactions.Offsets.{
  OffsetCondition, has_type, involves, between, OffsetRows, offset_limit, window_query, window_page,
  get_transactions_by_message_type, get_transactions_by_validator, get_transactions_by_block_range,
  offset_holds,
}
use mathlib.Core.Option

last_height :
    (r : TransactionRow) (rows : List TransactionRow) (b : Bool)
    → is_some (if b then Option.map height_of (last? (r ∷ rows)) else none) ≡ b
last_height r rows false = refl
last_height r [] true = refl
last_height r (x ∷ rows) true = last_height x rows true

and_pos : (b : Bool) (n : ℕ) → (b && ltb 0 (suc n)) ≡ b
and_pos b n = ground arith

and_true : (b : Bool) → (b && true) ≡ b
and_true b = ground arith

at_zero : (n : ℕ) → max 0 n ≡ n
at_zero n = omega arith

-- A page that is full has a cursor, and no other has one.
next_cursor_full :
    (limit : ℕ) (rows : List TransactionRow)
    → 1 ≤ limit
    → is_some (next_cursor height_of limit rows) ≡ (length rows == limit)
unfolding next_cursor
next_cursor_full limit [] h = ground arith
next_cursor_full limit (r ∷ rows) h =
    last_height r rows ((length (r ∷ rows) == limit) && ltb 0 (length (r ∷ rows)))
    ∙ and_pos (length (r ∷ rows) == limit) (length rows)

abbrev pub window_at : Option ℤ → ℕ → OffsetPaginationInput
window_at limit offset = record { limit = limit; offset = some (pos offset) }

module _ (sorted : TransactionSortBy → SortOrder → List TransactionRow) (get_many : OffsetRows)
    (answers : Answers offset_holds sorted get_many) (config : ConfigService) (lo hi : ℕ)
    (limit : Option ℤ) where
  -- The transactions of the range of blocks, newest first.
  abbrev pub in_range : List TransactionRow
  in_range =
      keep (λ r. leb lo r.transaction.height && leb r.transaction.height hi)
        (sorted TransactionSortBy.height desc)

  -- `getTransactionsByBlockRange` at each offset.
  abbrev pub serve_range : ℕ → OffsetPage TransactionRow
  serve_range offset =
      let page = get_transactions_by_block_range get_many config lo hi (window_at limit offset) in
      record { rows = page.rows; has_next = page.meta.has_next }

  abbrev pub range_limit : ℕ
  range_limit = offset_limit config (window_at limit 0)

  range_query :
      (offset : ℕ)
      → get_many (window_query config (between lo hi ∷ []) (window_at limit offset))
        ≡ take range_limit (drop offset in_range)
  unfolding window_query offset_holds normalize_offset_pagination
  range_query offset =
      answers (window_query config (between lo hi ∷ []) (window_at limit offset))
      ∙ ap
          (λ n. take range_limit (
            drop n (
              keep (λ r. all (λ c. offset_holds c r) (between lo hi ∷ []))
                (sorted TransactionSortBy.height desc))))
          (at_zero offset)
      ∙ ap (λ p. take range_limit (drop offset (keep p (sorted TransactionSortBy.height desc))))
          (fun_ext (λ r. and_true _))

  serve_range-page_at :
      (offset : ℕ) → 1 ≤ range_limit → serve_range offset ≡ page_at range_limit in_range offset
  unfolding get_transactions_by_block_range window_page cursor_page build_pagination_meta
      normalize_offset_pagination
  serve_range-page_at offset h =
      rw
        (
          range_query offset,
          next_cursor_full range_limit (take range_limit (drop offset in_range)) h,
        )
        refl

  -- A client that reads a range of blocks window by window, while there is a next page, gets
  -- every transaction of the range once and in order, within one request more than there are.
  pub get_transactions_by_block_range-all :
      (fuel : ℕ)
      → 1 ≤ get_max_limit config
      → length in_range < fuel
      → follow_offsets serve_range range_limit fuel 0 ≡ some in_range
  get_transactions_by_block_range-all fuel h enough =
      let limit_pos =
        (normalize_offset_pagination-IsWindow (window_at limit 0) config h).limit_pos in
      follow_offsets-all range_limit in_range serve_range
        (λ offset. serve_range-page_at offset limit_pos) fuel limit_pos enough

module _ (sorted : TransactionSortBy → SortOrder → List TransactionRow) (get_many : OffsetRows)
    (answers : AnswersOnce offset_holds sorted same_transaction get_many) (config : ConfigService)
    (window : OffsetPaginationInput) where
  window_page-All :
      (P : TransactionRow → Type 0) (c : OffsetCondition)
      → ((r : TransactionRow) → offset_holds c r ≡ true → P r)
      → (let page = window_page get_many config (c ∷ []) window in
          (length page.rows ≤ offset_limit config window) × All P page.rows)
  unfolding window_page window_query cursor_page
  window_page-All P c sound =
      let rows =
        skip (some (normalize_offset_pagination window config).offset) (
          keep (λ r. all (λ k. offset_holds k r) (c ∷ []))
            (sorted TransactionSortBy.height desc)) in
      rw (answers (window_query config (c ∷ []) window)) (
        omega (
          arith,
          length-once same_transaction (take (offset_limit config window) rows),
          length-take (offset_limit config window) rows,
        ),
        All-once P same_transaction _ (
            All-take P (offset_limit config window) rows (
              All-skip P (some (normalize_offset_pagination window config).offset) _ (
                All-imp _ P _ (λ r h. sound r (and-eq-true _ _ h).0)
                  (keep-All (λ r. all (λ k. offset_holds k r) (c ∷ []))
                    (sorted TransactionSortBy.height desc))))),
      )

  -- Whatever window is asked for, the listing of a message type returns at most the configured
  -- maximum of transactions, each with a message of the type.
  pub get_transactions_by_message_type-All :
      (t : String)
      → 1 ≤ get_max_limit config
      → (let page = get_transactions_by_message_type get_many config t window in
          (length page.rows ≤ get_max_limit config)
          × All (λ r. exists_message (λ m. str_eq t m.type_name) r.messages ≡ true) page.rows)
  unfolding get_transactions_by_message_type offset_holds
  get_transactions_by_message_type-All t h =
      let (few, good) =
        window_page-All (λ r. exists_message (λ m. str_eq t m.type_name) r.messages ≡ true)
          (has_type t) (λ r e. e) in
      (omega (arith, (normalize_offset_pagination-IsWindow window config h).limit_le, few), good)

  -- The listing of a validator: at most the maximum, and each involves the validator.
  pub get_transactions_by_validator-All :
      (a : String)
      → 1 ≤ get_max_limit config
      → (let page = get_transactions_by_validator get_many config a window in
          (length page.rows ≤ get_max_limit config)
          × All
              (λ r.
                exists_message (λ m. includes m.involved_accounts_addresses a) r.messages ≡ true)
              page.rows)
  unfolding get_transactions_by_validator offset_holds
  get_transactions_by_validator-All a h =
      let (few, good) =
        window_page-All
          (λ r. exists_message (λ m. includes m.involved_accounts_addresses a) r.messages ≡ true)
          (involves a) (λ r e. e) in
      (omega (arith, (normalize_offset_pagination-IsWindow window config h).limit_le, few), good)
