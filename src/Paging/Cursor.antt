-- ===== src/Paging/Cursor.antt =====
-- Cursor pagination, as the list endpoints share it: order by height, descending; `height < cursor`
-- if a cursor is given; the next cursor is the height of the last row of a full page.
pub mod Laws
pub mod Sublists
pub mod Liveness
pub mod Endpoint
use safrochain_indexer.Prelude.{
  ℕ, zero, suc, ◌+◌, ◌≤◌, ◌<◌, Option, none, some, Bool, true, false, List, [], ◌∷◌, ◌++◌, ◌≡◌,
  refl, ap, sym, length, take, drop, keep, all, last?, All, ltb, ◌==◌, ◌&&◌, if◌then◌else◌, arith,
  Option-cases, Bool-cases, ◌⊎◌, inl, inr, length-drop, take_all, take-append-drop,
}
use mathlib.Core.Option

-- A page that an endpoint serves: the rows and `meta.next_cursor`.
pub record CursorPage (R : Type 0) : Type 0 where
  pub rows : List R
  pub next_cursor : Option ℕ

-- `if (filters.cursor)`: a cursor of 0 counts as absent.
unfoldable pub cursor_set : Option ℕ → Option ℕ
cursor_set none = none
cursor_set (some zero) = none
cursor_set (some (suc c)) = some (suc c)

module _ {R : Type 0} (height : R → ℕ) where
  -- `hasNext && rows.length > 0 ? rows[rows.length - 1].height : undefined` for
  -- `hasNext = rows.length === limit`.
  unfoldable pub next_cursor : ℕ → List R → Option ℕ
  next_cursor limit rows =
      if (length rows == limit) && ltb 0 (length rows) then Option.map height (last? rows) else none

  -- A row's place in the order: newest first, no two rows at one height, and heights from 1.
  abbrev pub IsDescending : List R → Type 0
  IsDescending [] = Unit
  IsDescending (r ∷ rows) = (1 ≤ height r) × All (λ s. height s < height r) rows × IsDescending rows

  abbrev pub below : Option ℕ → R → Bool
  below none r = true
  below (some c) r = ltb (height r) c

  -- A client that follows `next_cursor` from page to page; `none` when the fuel runs out first.
  unfoldable pub follow : (Option ℕ → CursorPage R) → ℕ → Option ℕ → Option (List R)
  follow serve zero cursor = none
  follow serve (suc fuel) cursor =
      let page = serve cursor in
      elim page.next_cursor [
        | none ↦ some page.rows
        | some c ↦ Option.map (λ rest. page.rows ++ rest) (follow serve fuel (some c))
      ]
