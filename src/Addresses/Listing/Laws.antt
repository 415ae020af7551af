-- ===== src/Addresses/Listing/Laws.antt =====
-- What the advanced listing of an address answers, page by page and as a whole.
use Prim.Native.String.{String}
use safrochain_indexer.Prelude.{
  ℕ, ◌≤◌, ◌<◌, Option, none, some, Bool, true, List, [], ◌∷◌, All, take, drop, keep, all, length,
  ltb, ◌≡◌, refl, ap, sym, ◌∙◌, bind-eq-some, some_inj, subst, Option-cases, inl, inr,
}
use safrochain_indexer.Prelude.Sets.{includes}
use safrochain_indexer.Entities.{Message}
use safrochain_indexer.Paging.Params.{
  ConfigService, OffsetPaginationInput, get_max_limit, normalize_offset_pagination,
  normalize_offset_pagination-IsWindow,
}
use safrochain_indexer.Paging.Query.{SortOrder, desc, Answers}
use safrochain_indexer.Paging.Cursor.{CursorPage, cursor_set, next_cursor, below, follow}
use safrochain_indexer.Paging.Cursor.Laws.{Serves, All-imp, keep-All, keep-All_id, All-true}
use safrochain_indexer.Paging.Cursor.Sublists.{Sublist, has_height, All-Sublist}
use safrochain_indexer.Paging.Cursor.Liveness.{IsNewestFirst, IsNewestFirst-keep, follow_ends}
use safrochain_indexer.Paging.Cursor.Endpoint.{cursor_query-Serves}
use safrochain_indexer.Paging.Meta.{build_pagination_meta}
use safrochain_indexer.Transactions.Filters.{
  TransactionRow, in_partition, TransactionSortBy, exists_message, sort_field, sort_order,
}
use safrochain_indexer.Transactions.Listing.{
  AdvancedPaging, advanced_limit, cursor_page, offset_page, height_of,
}
use safrochain_indexer.Addresses.Filters.{
  AddressTransactionFilter, AddressCondition, height_lt, build_address_transaction_query,
  address_holds,
}
use safrochain_indexer.Addresses.Filters.Laws.{
  MatchesColumns, MatchesMessages, build_address_transaction_query_iff,
}
use safrochain_indexer.Addresses.Response.{Includes, AddressResponse, address_response}
use safrochain_indexer.Addresses.Summary.{AddressRows}
use safrochain_indexer.Addresses.Listing.{
  address_cursor_query, address_offset_query, get_address_rows, AddressSource, process_rows,
  AdvancedPage, get_address_transactions_advanced,
}

-- A request for the newest transactions first, which is the DTO's default.
abbrev pub newest_first : OffsetPaginationInput → Option ℕ → AdvancedPaging
newest_first window cursor = record {
  window = window;
  cursor = cursor;
  sort_by = some TransactionSortBy.height;
  order = some desc;
}

module _ (ilike : String → String → Bool) (value_text : Message → String)
    (types_module : String → String → Bool)
    (sorted : TransactionSortBy → SortOrder → List TransactionRow) (get_many : AddressRows)
    (answers : Answers (address_holds ilike value_text types_module) sorted get_many)
    (config : ConfigService) (a : String) (f : AddressTransactionFilter) where
  abbrev meets : AddressCondition → TransactionRow → Bool
  meets c r = address_holds ilike value_text types_module c r

  -- What the address and the filter ask of a row.
  pub record IsWanted (r : TransactionRow) : Type 0 where
    pub involves_it :
        exists_message (λ m. includes m.involved_accounts_addresses a) (in_partition r) ≡ true
    pub columns : MatchesColumns ilike value_text types_module a f r
    pub messages : MatchesMessages ilike value_text types_module a f r

  -- The address's transactions that match the filter, newest first.
  abbrev pub wanted_rows : List TransactionRow
  wanted_rows =
      keep (λ r. all (λ c. meets c r) (build_address_transaction_query a f))
        (sorted TransactionSortBy.height desc)

  IsWanted_of_meets :
      (r : TransactionRow)
      → all (λ c. meets c r) (build_address_transaction_query a f) ≡ true
      → IsWanted r
  IsWanted_of_meets r h =
      let (i, c, m) =
        (build_address_transaction_query_iff ilike value_text types_module a f r).0 h in
      record { involves_it = i; columns = c; messages = m }

  wanted_rows-All : All IsWanted wanted_rows
  wanted_rows-All =
      All-imp _ IsWanted _ IsWanted_of_meets (keep-All _ (sorted TransactionSortBy.height desc))

  abbrev pub serve_address : OffsetPaginationInput → Option ℕ → CursorPage TransactionRow
  serve_address window cursor =
      let page = get_address_rows get_many config a f (newest_first window cursor) in
      record { rows = page.rows; next_cursor = page.meta.next_cursor }

  below_holds : (n : ℕ) (r : TransactionRow) → meets (height_lt n) r ≡ ltb (height_of r) n
  unfolding address_holds
  below_holds n r = refl

  -- The path without a cursor serves the first page.
  serve_first :
      (window : OffsetPaginationInput) (limit : ℕ) (c : Option ℕ)
      → advanced_limit config (newest_first window c) ≡ limit
      → (normalize_offset_pagination window config).offset ≡ 0
      → cursor_set c ≡ none
      → serve_address window c ≡ record {
        rows = take limit (keep (below height_of (cursor_set c)) wanted_rows);
        next_cursor =
            next_cursor height_of limit
              (take limit (keep (below height_of (cursor_set c)) wanted_rows));
      }
  unfolding get_address_rows address_offset_query offset_page sort_field sort_order
      build_pagination_meta
  serve_first window limit c l o e =
      let rows_are : get_many (address_offset_query config a f (newest_first window c))
          ≡ take limit wanted_rows =
        answers (address_offset_query config a f (newest_first window c))
        ∙ ap (λ n. take n (drop (normalize_offset_pagination window config).offset wanted_rows)) l
        ∙ ap (λ n. take limit (drop n wanted_rows)) o in
      rw (e, rows_are, l, keep-All_id (below height_of none) wanted_rows (All-true wanted_rows))
        refl

  -- The path with a cursor serves the page below it.
  serve_next :
      (window : OffsetPaginationInput) (c : Option ℕ) (n : ℕ)
      → cursor_set c ≡ some n
      → serve_address window c ≡ (
          let rows = get_many (address_cursor_query config a f (newest_first window c)) in
          record {
            rows = rows;
            next_cursor =
                next_cursor height_of (advanced_limit config (newest_first window c)) rows;
          })
  unfolding get_address_rows cursor_page build_pagination_meta
  serve_next window c n e = rw e refl

  serve_address-Serves :
      (window : OffsetPaginationInput)
      → (normalize_offset_pagination window config).offset ≡ 0
      → Serves height_of
          (advanced_limit config (newest_first window none))
          wanted_rows
          (serve_address window)
  unfolding address_cursor_query sort_field sort_order
  serve_address-Serves window o c = elim (Option-cases (cursor_set c)) [
    | inl e ↦ serve_first window (advanced_limit config (newest_first window none)) c refl o e
    | inr (n, e) ↦
        serve_next window c n e
        ∙ cursor_query-Serves height_of meets sorted get_many answers
            (build_address_transaction_query a f) height_lt TransactionSortBy.height
            (advanced_limit config (newest_first window none)) below_holds c
  ]

  -- A client that asks for an address's transactions newest first, without an offset, and follows
  -- the cursors comes to the end within one request more than there are such transactions. It has
  -- then read only transactions that involve the address and match the filter, in the order of
  -- the table and none twice, and one at least of every block that has any.
  pub get_address_rows-Reads :
      (window : OffsetPaginationInput) (fuel : ℕ)
      → IsNewestFirst height_of (sorted TransactionSortBy.height desc)
      → 1 ≤ get_max_limit config
      → (normalize_offset_pagination window config).offset ≡ 0
      → length wanted_rows < fuel
      → (got : List TransactionRow) × (follow height_of (serve_address window) fuel none ≡ some got)
        × All IsWanted got
        × Sublist got wanted_rows
        × ((h : ℕ) → has_height height_of h wanted_rows ≡ true → has_height height_of h got ≡ true)
  get_address_rows-Reads window fuel d h o enough =
      let (got, read, sub, heights) =
        follow_ends height_of (advanced_limit config (newest_first window none)) wanted_rows
          (serve_address window) (serve_address-Serves window o) fuel
          (IsNewestFirst-keep height_of _ _ d)
          (normalize_offset_pagination-IsWindow window config h).limit_pos enough in
      (got, read, All-Sublist IsWanted sub wanted_rows-All, sub, heights)

-- The answers of a page, one for each row.
abbrev pub AnswersOf :
    AddressSource → Includes → String → List AddressResponse → List TransactionRow → Type 0
AnswersOf source shown a [] [] = Unit
AnswersOf source shown a [] (r ∷ rows) = ⊥
AnswersOf source shown a (t ∷ ts) [] = ⊥
AnswersOf source shown a (t ∷ ts) (r ∷ rows) =
    (address_response source.numbers source.now shown a r.transaction
        (source.find_messages r.transaction.hash)
      ≡ some t)
    × AnswersOf source shown a ts rows

process_rows-AnswersOf :
    (source : AddressSource) (shown : Includes) (a : String) (rows : List TransactionRow)
    (ts : List AddressResponse)
    → process_rows source shown a rows ≡ some ts
    → AnswersOf source shown a ts rows
unfolding process_rows
process_rows-AnswersOf source shown a [] ts e =
    subst (λ l. AnswersOf source shown a l []) (some_inj e) tt
process_rows-AnswersOf source shown a (r ∷ rows) ts e =
    let (t, answered, e') =
      bind-eq-some
        (address_response source.numbers source.now shown a r.transaction
          (source.find_messages r.transaction.hash))
        _ e in
    let (rest, later, made) = bind-eq-some (process_rows source shown a rows) _ e' in
    subst (λ l. AnswersOf source shown a l (r ∷ rows)) (some_inj made)
      (answered, process_rows-AnswersOf source shown a rows rest later)

-- A page of the advanced listing answers each row that was read, in the same order, and its meta is
-- that of the rows.
pub get_address_transactions_advanced-AnswersOf :
    (source : AddressSource) (config : ConfigService) (shown : Includes) (a : String)
    (f : AddressTransactionFilter) (p : AdvancedPaging) (page : AdvancedPage)
    → get_address_transactions_advanced source config shown a f p ≡ some page
    → (let rows = get_address_rows source.get_many config a f p in
        (page.meta ≡ rows.meta) × AnswersOf source shown a page.answers rows.rows)
unfolding get_address_transactions_advanced
get_address_transactions_advanced-AnswersOf source config shown a f p page e =
    let rows = (get_address_rows source.get_many config a f p).rows in
    let (ts, done, made) = bind-eq-some (process_rows source shown a rows) _ e in
    (
      sym (ap (λ q. q.meta) (some_inj made)),
      subst (λ q. AnswersOf source shown a q.answers rows) (some_inj made)
          (process_rows-AnswersOf source shown a rows ts done),
    )
