-- ===== src/Paging/Meta.antt =====
-- `buildPaginationMeta` of common/utils/pagination.util.ts, and `PaginationMetaDto` and
-- `PaginatedResponseDto` of common/dto/pagination.dto.ts. A total of -1 means "not counted". The
-- limit is at least 1 wherever these are called, so `Math.ceil(total / limit)` is a whole number.
use safrochain_indexer.Prelude.{
  ℕ, ◌+◌, ◌-◌, ◌*◌, ◌/◌, ◌≤◌, ◌<◌, Option, none, Bool, true, false, List, ◌≡◌, ◌↔◌, refl, ltb,
  is_some, get_or_else, arith, ltb→lt, lt→ltb,
}
use safrochain_indexer.Prelude.Int.{ℤ, pos, negsuc}
use native.Mathlib.Decide.{dec_lt}
use native.Mathlib.Nat.{div-add-mod, mod-lt}

pub record PaginationMeta : Type 0 where
  pub page : ℕ
  pub limit : ℕ
  pub total : ℕ
  pub total_pages : ℕ
  pub has_next : Bool
  pub has_prev : Bool
  pub next_cursor : Option ℕ

-- `Math.ceil(total / limit)` for a positive limit.
unfoldable pub ceil_div : ℕ → ℕ → ℕ
ceil_div total limit = (total + limit - 1) / limit

unfoldable pub build_pagination_meta : ℕ → ℕ → ℤ → Option ℕ → Option Bool → PaginationMeta
build_pagination_meta page limit (pos total) next_cursor has_next_override = record {
  page = page;
  limit = limit;
  total = total;
  total_pages = ceil_div total limit;
  has_next = ltb page (ceil_div total limit);
  has_prev = ltb 1 page;
  next_cursor = next_cursor;
}
build_pagination_meta page limit (negsuc _) next_cursor has_next_override = record {
  page = page;
  limit = limit;
  total = 0;
  total_pages = 0;
  has_next = get_or_else has_next_override (is_some next_cursor);
  has_prev = ltb 1 page;
  next_cursor = next_cursor;
}

-- The constructor of `PaginationMetaDto`; it never sets `next_cursor`.
unfoldable pub pagination_meta_dto : ℕ → ℕ → ℤ → Option Bool → PaginationMeta
pagination_meta_dto page limit (pos total) has_next_override = record {
  page = page;
  limit = limit;
  total = total;
  total_pages = ceil_div total limit;
  has_next = ltb page (ceil_div total limit);
  has_prev = ltb 1 page;
  next_cursor = none;
}
pagination_meta_dto page limit (negsuc _) has_next_override = record {
  page = page;
  limit = limit;
  total = 0;
  total_pages = 0;
  has_next = get_or_else has_next_override false;
  has_prev = ltb 1 page;
  next_cursor = none;
}

pub record PaginatedResponse {ℓ} (T : Type ℓ) : Type ℓ where
  pub items : List T
  pub meta : PaginationMeta

-- The constructor of `PaginatedResponseDto`.
unfoldable pub paginated_response {ℓ} :
    {T : Type ℓ} → List T → ℕ → ℕ → ℤ → Option Bool → PaginatedResponse T
unfolding pagination_meta_dto
paginated_response items page limit total has_next_override = record {
  items = items;
  meta = pagination_meta_dto page limit total has_next_override;
}

pub ceil_div_fits :
    (total limit : ℕ)
    → 1 ≤ limit
    → (total ≤ ceil_div total limit * limit) × (ceil_div total limit * limit < total + limit)
unfolding ceil_div
ceil_div_fits total limit h =
    grind (arith, div-add-mod (total + limit - 1) limit, mod-lt (total + limit - 1) h)

mul_lt : (a b l : ℕ) → a < b → a * l + l ≤ b * l
mul_lt a b l h = grind arith

mul_le : (a b l : ℕ) → b ≤ a → b * l ≤ a * l
mul_le a b l h = grind arith

lt_of_mul_lt : (a b l : ℕ) → a * l < b * l → a < b
lt_of_mul_lt a b l h = elim (dec_lt a b) [
  | yes p ↦ p
  | no p ↦ absurd (omega (arith, mul_le a b l (omega arith)))
]

page_lt_iff :
    (page total limit : ℕ)
    → 1 ≤ limit
    → (ltb page (ceil_div total limit) ≡ true) ↔ (page * limit < total)
page_lt_iff page total limit h =
    let (fits, tight) = ceil_div_fits total limit h in
    (
      λ e. omega (arith, mul_lt page (ceil_div total limit) limit (ltb→lt _ _ e)),
      λ lt. lt→ltb _ _ (lt_of_mul_lt page (ceil_div total limit) limit (omega arith)),
    )

-- With a counted total, `totalPages` is the least number of pages that holds every row, `hasNext`
-- says exactly whether a row lies past this page, and `hasPrev` whether a page lies before it.
pub build_pagination_meta_counted :
    (page limit total : ℕ) (cursor : Option ℕ) (override : Option Bool)
    → 1 ≤ limit
    → (let m = build_pagination_meta page limit (pos total) cursor override in
        (total ≤ m.total_pages * limit)
        × (m.total_pages * limit < total + limit)
        × ((m.has_next ≡ true) ↔ (page * limit < total))
        × ((m.has_prev ≡ true) ↔ (1 < page)))
unfolding build_pagination_meta
build_pagination_meta_counted page limit total cursor override h =
    let (fits, tight) = ceil_div_fits total limit h in
    (fits, tight, page_lt_iff page total limit h, (λ e. ground arith, λ lt. ground arith))

-- The util and the DTO build one and the same meta for every total, counted or not, when no
-- cursor is passed.
pub build_pagination_meta-pagination_meta_dto :
    (page limit : ℕ) (total : ℤ) (override : Option Bool)
    → build_pagination_meta page limit total none override
      ≡ pagination_meta_dto page limit total override
unfolding build_pagination_meta pagination_meta_dto
build_pagination_meta-pagination_meta_dto page limit (pos total) override = refl
build_pagination_meta-pagination_meta_dto page limit (negsuc n) override = refl
