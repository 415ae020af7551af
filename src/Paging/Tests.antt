-- ===== src/Paging/Tests.antt =====
-- Paging on concrete requests.
use safrochain_indexer.Prelude.{List, ℕ, none, some, [], ◌∷◌, true, ◌≡◌, refl, arith}
use safrochain_indexer.Prelude.Int.{pos, negsuc}
use safrochain_indexer.Paging.Params.{
  ConfigService, PagePaginationInput, OffsetPaginationInput, clamp_limit, normalize_page_pagination,
  normalize_offset_pagination, IsWindow, normalize_page_pagination-IsWindow,
  normalize_offset_pagination-normalize_page_pagination,
}
use safrochain_indexer.Paging.Windows.{read_pages, read_pages_lem}
use safrochain_indexer.Paging.Meta.{
  ceil_div, build_pagination_meta, pagination_meta_dto, paginated_response,
}

abbrev config : ConfigService
config = record { default_page_size = some 20; max_page_size = some 100 }

abbrev huge_page : PagePaginationInput
huge_page = record { page = some (pos 3); limit = some (pos 500) }

abbrev negative_offset : OffsetPaginationInput
negative_offset = record { limit = some (negsuc 4); offset = some (negsuc 0) }

limit_cut :
    normalize_page_pagination huge_page config ≡ record { page = 3; limit = 100; offset = 200 }
unfolding normalize_page_pagination clamp_limit
limit_cut = refl

offset_raised :
    normalize_offset_pagination negative_offset config ≡ record { page = 1; limit = 1; offset = 0 }
unfolding normalize_offset_pagination clamp_limit
offset_raised = refl

uncounted_next : (build_pagination_meta 1 20 (negsuc 0) (some 7) none).has_next ≡ true
unfolding build_pagination_meta
uncounted_next = refl

paged_items : (paginated_response {T = ℕ} (4 ∷ 5 ∷ []) 1 2 (pos 5) none).meta.total_pages ≡ 3
unfolding paginated_response pagination_meta_dto ceil_div
paged_items = refl

normalize_page_pagination-IsWindow_example :
    IsWindow config (normalize_page_pagination huge_page config)
normalize_page_pagination-IsWindow_example =
    normalize_page_pagination-IsWindow huge_page config (omega arith)

renormalize_example :
    normalize_offset_pagination (record { limit = some (pos 100); offset = some (pos 200) }) config
    ≡ record { page = 3; limit = 100; offset = 200 }
unfolding normalize_page_pagination clamp_limit
renormalize_example =
    normalize_offset_pagination-normalize_page_pagination huge_page config (omega arith)

abbrev five_rows : List ℕ
five_rows = 7 ∷ 6 ∷ 5 ∷ 4 ∷ 3 ∷ []

read_pages_example : read_pages config (some (pos 2)) 3 1 five_rows ≡ five_rows
unfolding ceil_div clamp_limit normalize_page_pagination build_pagination_meta
read_pages_example = read_pages_lem config (some (pos 2)) five_rows (omega arith)
