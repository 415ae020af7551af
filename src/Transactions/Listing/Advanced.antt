-- ===== src/Transactions/Listing/Advanced.antt =====
-- The advanced listing: `buildTransactionQuery` joins the message table, which repeats a transaction
-- for each of its messages, and `getMany` returns each transaction once.
use safrochain_indexer.Prelude.{
  ℕ, ◌≤◌, Option, none, some, Bool, true, ◌&&◌, List, [], ◌∷◌, ◌++◌, All, take, drop, keep, all,
  length, ◌≡◌, refl, ap, ◌∙◌, arith, if◌then◌else◌, is_some, String, length-take, zero, suc, not,
  str_eq, sym, false,
}
use safrochain_indexer.Paging.Params.{
  ConfigService, get_max_limit, normalize_offset_pagination, normalize_offset_pagination-IsWindow,
}
use safrochain_indexer.Paging.Query.{SelectQuery, SortOrder, AnswersOnce, once, cut, skip}
use safrochain_indexer.Paging.Cursor.{cursor_set, next_cursor}
use safrochain_indexer.Paging.Cursor.Laws.{All-imp, keep-All, All-take, All-keep}
use safrochain_indexer.Paging.Meta.{build_pagination_meta}
use safrochain_indexer.Transactions.Filters.{
  TransactionRow, TransactionSortBy, TransactionFilter, TransactionCondition,
  build_transaction_query, holds, sort_field, sort_order,
}
use safrochain_indexer.Transactions.Filters.Laws.{
  all-append_iff, Matches, build_transaction_query_iff,
}
use safrochain_indexer.Transactions.Listing.{
  TransactionPage, Rows, AdvancedPaging, by_height, get_transactions_advanced, cursor_query,
  offset_query, cursor_page, offset_page, advanced_limit,
}

All-drop : {R : Type 0} (P : R → Type 0) (n : ℕ) (rows : List R) → All P rows → All P (drop n rows)
All-drop P zero rows a = a
All-drop P (suc n) [] a = tt
All-drop P (suc n) (r ∷ rows) (h, a) = All-drop P n rows a

pub All-skip :
    {R : Type 0} (P : R → Type 0) (o : Option ℕ) (rows : List R) → All P rows → All P (skip o rows)
All-skip P none rows a = a
All-skip P (some n) rows a = All-drop P n rows a

length-keep : {R : Type 0} (p : R → Bool) (rows : List R) → length (keep p rows) ≤ length rows
length-keep p [] = omega arith
length-keep p (r ∷ rows) = ground (arith, length-keep p rows)

pub length-once :
    {R : Type 0} (same : R → R → Bool) (rows : List R) → length (once same rows) ≤ length rows
unfolding once
length-once same [] = omega arith
length-once same (r ∷ rows) =
    omega (arith, length-keep (λ s. not (same r s)) (once same rows), length-once same rows)

pub All-once :
    {R : Type 0} (P : R → Type 0) (same : R → R → Bool) (rows : List R)
    → All P rows
    → All P (once same rows)
unfolding once
All-once P same [] a = tt
All-once P same (r ∷ rows) (h, a) = (h, All-keep P (λ s. not (same r s)) _ (All-once P same rows a))

keep-none :
    {R : Type 0} (p : R → Bool) (rows : List R) → All (λ r. p r ≡ false) rows → keep p rows ≡ []
keep-none p [] a = refl
keep-none p (r ∷ rows) (h, a) = rw h (keep-none p rows a)

-- Two rows of one transaction.
abbrev pub same_transaction : TransactionRow → TransactionRow → Bool
same_transaction r s = str_eq r.transaction.hash s.transaction.hash

-- The rows of one transaction come back as one.
once-repeated :
    (r : TransactionRow) (rows : List TransactionRow)
    → All (λ s. same_transaction r s ≡ true) rows
    → once same_transaction (r ∷ rows) ≡ r ∷ []
unfolding once
once-repeated r rows a =
    ap (λ l. r ∷ l)
      (keep-none (λ s. not (same_transaction r s)) _
        (All-imp (λ s. same_transaction r s ≡ true) (λ s. not (same_transaction r s) ≡ false) _
          (λ s e. ap not e) (All-once _ same_transaction rows a)))

take-append : {R : Type 0} (xs ys : List R) → take (length xs) (xs ++ ys) ≡ xs
take-append [] ys = refl
take-append (x ∷ xs) ys = ap (λ r. x ∷ r) (take-append xs ys)

module _ (ilike : String → String → Bool)
    (sorted : TransactionSortBy → SortOrder → List TransactionRow) (get_many : Rows)
    (answers : AnswersOnce (holds ilike) sorted same_transaction get_many) (config : ConfigService)
    (f : TransactionFilter) (p : AdvancedPaging) where
  window_rows :
      (q : SelectQuery TransactionCondition TransactionSortBy) (limit : ℕ)
      → q.limit ≡ some limit
      → ((r : TransactionRow) → all (λ k. holds ilike k r) q.conditions ≡ true → Matches ilike f r)
      → (length (get_many q) ≤ limit) × All (Matches ilike f) (get_many q)
  window_rows q limit bounded sound =
      let rows =
        skip q.offset
          (keep (λ r. all (λ k. holds ilike k r) q.conditions) (sorted q.order_by q.order)) in
      let e : get_many q ≡ once same_transaction (take limit rows) =
        answers q ∙ ap (λ l. once same_transaction (cut l rows)) bounded in
      rw e (
        omega (arith, length-once same_transaction (take limit rows), length-take limit rows),
        All-once (Matches ilike f) same_transaction (take limit rows) (
            All-take (Matches ilike f) limit rows (
              All-skip (Matches ilike f) q.offset _ (
                All-imp _ (Matches ilike f) _ sound (
                  keep-All (λ r. all (λ k. holds ilike k r) q.conditions)
                    (sorted q.order_by q.order))))),
      )

  cursor_sound :
      (r : TransactionRow)
      → all (λ k. holds ilike k r) (cursor_query config f p).conditions ≡ true
      → Matches ilike f r
  unfolding cursor_query
  cursor_sound r h =
      (build_transaction_query_iff ilike f r).0
        ((all-append_iff (λ k. holds ilike k r) (build_transaction_query f) _).0 h).0

  offset_sound :
      (r : TransactionRow)
      → all (λ k. holds ilike k r) (offset_query config f p).conditions ≡ true
      → Matches ilike f r
  unfolding offset_query
  offset_sound r h = (build_transaction_query_iff ilike f r).0 h

  abbrev IsGood : TransactionPage → Type 0
  IsGood page = (length page.rows ≤ get_max_limit config) × All (Matches ilike f) page.rows

  either_page :
      (b : Bool) (x y : TransactionPage) → IsGood x → IsGood y → IsGood (if b then x else y)
  either_page true x y g h = g
  either_page false x y g h = h

  get_transactions_advanced-Matches :
      1 ≤ get_max_limit config
      → (let page = get_transactions_advanced get_many config f p in
          (length page.rows ≤ get_max_limit config) × All (Matches ilike f) page.rows)
  unfolding get_transactions_advanced
  get_transactions_advanced-Matches h =
      let limit_le = (normalize_offset_pagination-IsWindow p.window config h).limit_le in
      let by_cursor =
        window_rows (cursor_query config f p) (advanced_limit config p)
          (unfold cursor_query in refl) cursor_sound in
      let by_offset =
        window_rows (offset_query config f p) (advanced_limit config p)
          (unfold offset_query in refl) offset_sound in
      either_page (is_some (cursor_set p.cursor) && by_height p.sort_by) _ _
        (unfold cursor_page in (omega (arith, by_cursor.0), by_cursor.1))
        (unfold offset_page in (omega (arith, by_offset.0), by_offset.1))

  -- Whether it pages by cursor or by offset, the advanced listing returns at most as many rows
  -- as the configured maximum, and every row matches every given field of the filter other than the
  -- three on fees; whatever those three say, the answer is the same.
  pub get_transactions_advanced_lem :
      1 ≤ get_max_limit config
      → (let page = get_transactions_advanced get_many config f p in
          (length page.rows ≤ get_max_limit config)
          × All (Matches ilike f) page.rows
          × ((lowest highest denom : Option String)
              → get_transactions_advanced get_many config
                  (record f {
                    min_fee_amount = lowest;
                    max_fee_amount = highest;
                    fee_denom = denom;
                  })
                  p
                ≡ page))
  unfolding get_transactions_advanced cursor_query offset_query build_transaction_query
  get_transactions_advanced_lem h =
      let (few, matching) = get_transactions_advanced-Matches h in
      (few, matching, λ lowest highest denom. refl)

  -- The rows of the join that pass the filters, in the order asked for.
  abbrev pub joined : List TransactionRow
  joined =
      keep (λ r. all (λ k. holds ilike k r) (build_transaction_query f))
        (sorted (sort_field p.sort_by) (sort_order p.order))

  -- Where a page's window begins with `limit` rows of one transaction, the page is that transaction
  -- alone and ends the listing: it has no next page and no cursor, whatever rows are past it.
  pub get_transactions_advanced_repeated :
      (x : TransactionRow) (xs ys : List TransactionRow)
      → cursor_set p.cursor ≡ none
      → skip (some (normalize_offset_pagination p.window config).offset) joined ≡ (x ∷ xs) ++ ys
      → All (λ s. same_transaction x s ≡ true) xs
      → length (x ∷ xs) ≡ advanced_limit config p
      → 2 ≤ advanced_limit config p
      → (let page = get_transactions_advanced get_many config f p in
          (page.rows ≡ x ∷ []) × (page.meta.next_cursor ≡ none) × (page.meta.has_next ≡ false))
  unfolding get_transactions_advanced offset_query offset_page build_pagination_meta next_cursor
  get_transactions_advanced_repeated x xs ys fresh split same fits two =
      let limit = advanced_limit config p in
      let e : get_many (offset_query config f p) ≡ x ∷ [] =
        answers (offset_query config f p)
        ∙ ap (λ l. once same_transaction (take limit l)) split
        ∙ ap (λ n. once same_transaction (take n ((x ∷ xs) ++ ys))) (sym fits)
        ∙ ap (once same_transaction) (take-append (x ∷ xs) ys)
        ∙ once-repeated x xs same in
      rw (fresh, e) (ground arith)
