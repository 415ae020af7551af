-- ===== src/Paging/Params.antt =====
-- The normalisers of common/utils/pagination.util.ts. A request's numbers are integers (the DTOs ask
-- for `IsInt`); the two page sizes of the configuration are natural numbers, which
-- config/app.config.ts reads as `parseInt(...) || default`, so 0 never reaches them.
use safrochain_indexer.Prelude.{
  ℕ, ◌+◌, ◌-◌, ◌*◌, ◌/◌, ◌≤◌, ◌<◌, max, Option, some, ◌≡◌, ltb, if◌then◌else◌, get_or_else, arith,
}
use safrochain_indexer.Prelude.Int.{ℤ, pos, at_least}
use native.Mathlib.Nat.{div-add-mod, mod-lt, mul-div_cancel}

pub record ConfigService : Type 0 where
  pub default_page_size : Option ℕ
  pub max_page_size : Option ℕ

pub record PagePaginationInput : Type 0 where
  pub page : Option ℤ
  pub limit : Option ℤ

pub record OffsetPaginationInput : Type 0 where
  pub limit : Option ℤ
  pub offset : Option ℤ

pub record PaginationParams : Type 0 where
  pub page : ℕ
  pub limit : ℕ
  pub offset : ℕ

abbrev pub get_default_limit : ConfigService → ℕ
get_default_limit c = get_or_else c.default_page_size 20

abbrev pub get_max_limit : ConfigService → ℕ
get_max_limit c = get_or_else c.max_page_size 100

unfoldable pub clamp_limit : ℕ → ConfigService → ℕ
clamp_limit limit c = if ltb (get_max_limit c) limit then get_max_limit c else limit

unfoldable pub normalize_page_pagination : PagePaginationInput → ConfigService → PaginationParams
normalize_page_pagination input c =
    let raw_page = get_or_else input.page (pos 1) in
    let raw_limit = get_or_else input.limit (pos (get_default_limit c)) in
    let page = at_least 1 raw_page in
    let limit = clamp_limit (at_least 1 raw_limit) c in
    record { page = page; limit = limit; offset = (page - 1) * limit }

unfoldable pub normalize_offset_pagination :
    OffsetPaginationInput → ConfigService → PaginationParams
normalize_offset_pagination input c =
    let raw_limit = get_or_else input.limit (pos (get_default_limit c)) in
    let raw_offset = get_or_else input.offset (pos 0) in
    let limit = clamp_limit (at_least 1 raw_limit) c in
    let offset = at_least 0 raw_offset in
    record { page = offset / limit + 1; limit = limit; offset = offset }

-- What every list endpoint relies on: `row` stands in the window of page `p.page`.
pub record IsWindow (c : ConfigService) (p : PaginationParams) : Type 0 where
  pub page_pos : 1 ≤ p.page
  pub limit_pos : 1 ≤ p.limit
  pub limit_le : p.limit ≤ get_max_limit c
  pub from_page : (p.page - 1) * p.limit ≤ p.offset
  pub below_next : p.offset < p.page * p.limit

clamp_limit_bounds :
    (limit : ℕ) (c : ConfigService)
    → 1 ≤ limit
    → 1 ≤ get_max_limit c
    → (1 ≤ clamp_limit limit c) × (clamp_limit limit c ≤ get_max_limit c)
unfolding clamp_limit
clamp_limit_bounds limit c h k = ground arith

-- The window that an offset falls into.
window_of_offset : (o l : ℕ) → 1 ≤ l → ((o / l + 1 - 1) * l ≤ o) × (o < (o / l + 1) * l)
window_of_offset o l h = grind (arith, div-add-mod o l, mod-lt o h)

window_mul : (p l : ℕ) → 1 ≤ p → 1 ≤ l → (p - 1) * l < p * l
window_mul p l h k = grind arith

-- Whatever page and limit a request asks for, negative or huge, the result has page and limit at
-- least 1, a limit within the configured maximum, and an offset inside that page.
pub normalize_page_pagination-IsWindow :
    (input : PagePaginationInput) (c : ConfigService)
    → 1 ≤ get_max_limit c
    → IsWindow c (normalize_page_pagination input c)
unfolding normalize_page_pagination
normalize_page_pagination-IsWindow input c h =
    let raw_limit = at_least 1 (get_or_else input.limit (pos (get_default_limit c))) in
    let page = at_least 1 (get_or_else input.page (pos 1)) in
    let (lo, hi) = clamp_limit_bounds raw_limit c (omega arith) h in
    let page_pos : 1 ≤ page = omega arith in
    record {
      page_pos = page_pos;
      limit_pos = lo;
      limit_le = hi;
      from_page = omega arith;
      below_next = window_mul page (clamp_limit raw_limit c) page_pos lo;
    }

-- Whatever limit and offset a request asks for, the result has a limit from 1 to the configured
-- maximum, and the computed page is the one whose window holds the offset.
pub normalize_offset_pagination-IsWindow :
    (input : OffsetPaginationInput) (c : ConfigService)
    → 1 ≤ get_max_limit c
    → IsWindow c (normalize_offset_pagination input c)
unfolding normalize_offset_pagination
normalize_offset_pagination-IsWindow input c h =
    let raw_limit = at_least 1 (get_or_else input.limit (pos (get_default_limit c))) in
    let offset = at_least 0 (get_or_else input.offset (pos 0)) in
    let (lo, hi) = clamp_limit_bounds raw_limit c (omega arith) h in
    let (from_page, below_next) = window_of_offset offset (clamp_limit raw_limit c) lo in
    record {
      page_pos = omega arith;
      limit_pos = lo;
      limit_le = hi;
      from_page = from_page;
      below_next = below_next;
    }

max_zero : (n : ℕ) → max 0 n ≡ n
max_zero n = omega arith

clamp_limit_fixed :
    (limit : ℕ) (c : ConfigService)
    → 1 ≤ limit
    → limit ≤ get_max_limit c
    → clamp_limit (max 1 limit) c ≡ limit
unfolding clamp_limit
clamp_limit_fixed limit c h k = ground arith

page_of_offset : (page limit : ℕ) → 1 ≤ page → 1 ≤ limit → (page - 1) * limit / limit + 1 ≡ page
page_of_offset page limit h k = omega (arith, mul-div_cancel (page - 1) k)

renormalize :
    (page limit : ℕ) (c : ConfigService)
    → 1 ≤ page
    → 1 ≤ limit
    → limit ≤ get_max_limit c
    → normalize_offset_pagination
        (record { limit = some (pos limit); offset = some (pos ((page - 1) * limit)) })
        c
      ≡ record { page = page; limit = limit; offset = (page - 1) * limit }
unfolding normalize_offset_pagination
renormalize page limit c h k l =
    cc (clamp_limit_fixed limit c k l, page_of_offset page limit h k, max_zero ((page - 1) * limit))

-- Asking by offset for what a page request resolved to gives the same page, limit and offset.
pub normalize_offset_pagination-normalize_page_pagination :
    (input : PagePaginationInput) (c : ConfigService)
    → 1 ≤ get_max_limit c
    → (let p = normalize_page_pagination input c in
        normalize_offset_pagination
          (record { limit = some (pos p.limit); offset = some (pos p.offset) })
          c
        ≡ p)
unfolding normalize_page_pagination normalize_offset_pagination
normalize_offset_pagination-normalize_page_pagination input c h =
    let w = normalize_page_pagination-IsWindow input c h in
    renormalize (at_least 1 (get_or_else input.page (pos 1))) _ c w.page_pos w.limit_pos w.limit_le
