-- ===== src/Paging/Offsets.antt =====
-- Listings that are paged by offset, and a client that reads on while a page says that there is a
-- next one. Such a page says so when it is full.
use safrochain_indexer.Prelude.{
  ℕ, zero, suc, ◌+◌, ◌≤◌, ◌<◌, Option, none, some, Bool, List, ◌++◌, ◌≡◌, ap, sym, ◌∙◌, length,
  take, drop, ◌==◌, if◌then◌else◌, arith, Bool-cases, inl, inr, length-take, length-drop, take_all,
  take-append-drop, ==→eq,
}
use safrochain_indexer.Paging.Windows.{drop-drop}
use mathlib.Core.Option

pub record OffsetPage (R : Type 0) : Type 0 where
  pub rows : List R
  pub has_next : Bool

module _ {R : Type 0} where
  -- What an endpoint serves at an offset.
  abbrev pub page_at : ℕ → List R → ℕ → OffsetPage R
  page_at limit matching offset =
      let rows = take limit (drop offset matching) in
      record { rows = rows; has_next = length rows == limit }

  abbrev pub ServesOffsets : ℕ → List R → (ℕ → OffsetPage R) → Type 0
  ServesOffsets limit matching serve = (offset : ℕ) → serve offset ≡ page_at limit matching offset

  -- A client that asks for the next window while there is one; `none` when the fuel runs out first.
  unfoldable pub follow_offsets : (ℕ → OffsetPage R) → ℕ → ℕ → ℕ → Option (List R)
  follow_offsets serve limit zero offset = none
  follow_offsets serve limit (suc fuel) offset =
      let page = serve offset in
      let rest = follow_offsets serve limit fuel (offset + limit) in
      if page.has_next then Option.map (λ rows. page.rows ++ rows) rest else some page.rows

  module _ (limit : ℕ) (matching : List R) (serve : ℕ → OffsetPage R)
      (s : ServesOffsets limit matching serve) where
    -- From any offset on, the client reads exactly the rows from there, each once and in order, in
    -- at most one request more than there are such rows.
    pub follow_offsets-drop :
        (fuel offset : ℕ)
        → 1 ≤ limit
        → length (drop offset matching) < fuel
        → follow_offsets serve limit fuel offset ≡ some (drop offset matching)
    unfolding follow_offsets
    follow_offsets-drop zero offset h m = absurd (omega arith)
    follow_offsets-drop (suc fuel) offset h m =
        let left = drop offset matching in
        elim (Bool-cases (length (take limit left) == limit)) [
          | inr partial ↦
              rw (s offset, partial)
                (ap some (take_all limit left (ground (arith, length-take limit left))))
          | inl full ↦
              let later = follow_offsets-drop fuel (offset + limit) h (
                omega (
                  arith,
                  ==→eq _ _ full,
                  length-take limit left,
                  length-drop limit left,
                  ap length (drop-drop limit offset matching),
                )) in
              rw (s offset, full, later)
                (ap some (
                  ap (λ r. take limit left ++ r) (sym (drop-drop limit offset matching))
                  ∙ take-append-drop limit left))
        ]

    -- Read from the start, the pages give every row of the listing, once and in order.
    pub follow_offsets-all :
        (fuel : ℕ)
        → 1 ≤ limit
        → length matching < fuel
        → follow_offsets serve limit fuel 0 ≡ some matching
    follow_offsets-all fuel h m = follow_offsets-drop fuel 0 h m
