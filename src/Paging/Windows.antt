-- ===== src/Paging/Windows.antt =====
-- The pages that `normalizePagePagination` cuts a listing into, against the `totalPages` of
-- `buildPaginationMeta`.
use safrochain_indexer.Prelude.{
  ℕ, zero, suc, ◌+◌, ◌-◌, ◌*◌, ◌≤◌, max, Option, none, some, List, [], ◌∷◌, ◌++◌, ◌≡◌, refl, ap,
  sym, ◌∙◌, length, take, drop, arith, length-drop, take-append-drop, get_or_else,
}
use safrochain_indexer.Prelude.Int.{ℤ, pos, at_least}
use safrochain_indexer.Paging.Params.{
  ConfigService, clamp_limit, get_default_limit, get_max_limit, normalize_page_pagination,
  normalize_page_pagination-IsWindow,
}
use safrochain_indexer.Paging.Meta.{ceil_div, ceil_div_fits, build_pagination_meta}

pub suc_mul : (n l : ℕ) → suc n * l ≡ n * l + l
suc_mul n l = grind arith

-- The page size that a request's limit comes to.
abbrev pub page_size : ConfigService → Option ℤ → ℕ
page_size c limit = clamp_limit (at_least 1 (get_or_else limit (pos (get_default_limit c)))) c

module _ {R : Type 0} where
  drop-nil : (n : ℕ) → drop {A = R} n [] ≡ []
  drop-nil zero = refl
  drop-nil (suc n) = refl

  pub drop-drop : (m n : ℕ) (rows : List R) → drop m (drop n rows) ≡ drop (n + m) rows
  drop-drop m zero rows = ap (λ k. drop k rows) (omega arith)
  drop-drop m (suc n) [] = drop-nil m ∙ sym (drop-nil (suc n + m))
  drop-drop m (suc n) (r ∷ rows) =
      let next : suc (n + m) ≡ suc n + m = omega arith in
      drop-drop m n rows ∙ ap (λ k. drop k (r ∷ rows)) next

  empty_of_length : (rows : List R) → length rows ≤ 0 → rows ≡ []
  empty_of_length [] h = refl
  empty_of_length (r ∷ rows) h = absurd (omega arith)

  -- `count` windows of `limit` rows, from the window after `before` others.
  tiles : ℕ → ℕ → ℕ → List R → List R
  tiles limit zero before rows = []
  tiles limit (suc count) before rows =
      take limit (drop (before * limit) rows) ++ tiles limit count (before + 1) rows

  tiles_join :
      (limit count before : ℕ) (rows : List R)
      → length (drop (before * limit) rows) ≤ count * limit
      → tiles limit count before rows ≡ drop (before * limit) rows
  unfolding tiles
  tiles_join limit zero before rows h =
      sym (empty_of_length (drop (before * limit) rows) (omega arith))
  tiles_join limit (suc count) before rows h =
      let here = drop (before * limit) rows in
      let later : drop ((before + 1) * limit) rows ≡ drop limit here =
        ap (λ k. drop k rows) (grind arith) ∙ sym (drop-drop limit (before * limit) rows) in
      ap (λ l. take limit here ++ l)
        (tiles_join limit count (before + 1) rows
            (omega (arith, ap length later, length-drop limit here, suc_mul count limit))
          ∙ later)
      ∙ take-append-drop limit here

  -- The rows of one page of a listing.
  abbrev pub page_rows : ConfigService → Option ℤ → ℕ → List R → List R
  page_rows c limit page rows =
      let w = normalize_page_pagination (record { page = some (pos page); limit = limit }) c in
      take w.limit (drop w.offset rows)

  -- `count` pages, one after the other, from a page on.
  unfoldable pub read_pages : ConfigService → Option ℤ → ℕ → ℕ → List R → List R
  read_pages c limit zero page rows = []
  read_pages c limit (suc count) page rows =
      page_rows c limit page rows ++ read_pages c limit count (page + 1) rows

  read_pages-tiles :
      (c : ConfigService) (limit : Option ℤ) (count before : ℕ) (rows : List R)
      → read_pages c limit count (before + 1) rows ≡ tiles (page_size c limit) count before rows
  unfolding read_pages tiles normalize_page_pagination
  read_pages-tiles c limit zero before rows = refl
  read_pages-tiles c limit (suc count) before rows =
      let same : max 1 (before + 1) - 1 ≡ before = omega arith in
      cc (same, read_pages-tiles c limit count (before + 1) rows)

  -- The pages from 1 to `totalPages` of a listing, each cut by the offset and limit of its request,
  -- hold every row of the listing once and in order, whatever limit is asked for.
  pub read_pages_lem :
      (c : ConfigService) (limit : Option ℤ) (rows : List R)
      → 1 ≤ get_max_limit c
      → (let w = normalize_page_pagination (record { page = some (pos 1); limit = limit }) c in
          let m = build_pagination_meta 1 w.limit (pos (length rows)) none none in
          read_pages c limit m.total_pages 1 rows ≡ rows)
  unfolding build_pagination_meta normalize_page_pagination
  read_pages_lem c limit rows h =
      let size = page_size c limit in
      let size_pos =
        (normalize_page_pagination-IsWindow (record { page = some (pos 1); limit = limit }) c
          h).limit_pos in
      let (fits, tight) = ceil_div_fits (length rows) size size_pos in
      let start : 0 * size ≡ 0 = omega arith in
      read_pages-tiles c limit (ceil_div (length rows) size) 0 rows
      ∙ tiles_join size (ceil_div (length rows) size) 0 rows (rw start fits)
      ∙ ap (λ k. drop k rows) start
