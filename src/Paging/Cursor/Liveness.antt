-- ===== src/Paging/Cursor/Liveness.antt =====
-- A client that follows `next_cursor` where several rows may share a height: it reaches the end, and
-- misses no height.
use safrochain_indexer.Prelude.{
  ℕ, zero, suc, ◌≤◌, ◌<◌, Option, none, some, Bool, true, List, [], ◌∷◌, ◌++◌, ◌≡◌, ◌∙◌, refl, ap,
  subst, length, take, drop, keep, last?, All, ltb, ◌==◌, arith, Bool-cases, ◌⊎◌, inl, inr,
  length-drop, length-take, take_all, take-append-drop, le→ltb, ltb→lt, some_inj, ==→eq,
}
use safrochain_indexer.Paging.Cursor.{CursorPage, cursor_set, next_cursor, below, follow}
use safrochain_indexer.Paging.Cursor.Laws.{
  Serves, All-keep, All-take, All-last, keep-All_id, keep-next, cursor_set_pos, All-true,
  last?-some,
}
use safrochain_indexer.Paging.Cursor.Sublists.{
  Sublist, Sublist_refl, Sublist_append, Sublist_trans, keep-Sublist, length-keep, has_height,
  has_height-append, has_height-bound,
}

module _ {R : Type 0} (height : R → ℕ) where
  -- Newest first, where rows may share a height, and heights are from 1.
  abbrev pub IsNewestFirst : List R → Type 0
  IsNewestFirst [] = Unit
  IsNewestFirst (r ∷ rows) =
      (1 ≤ height r) × All (λ s. height s ≤ height r) rows × IsNewestFirst rows

  pub IsNewestFirst-keep :
      (p : R → Bool) (rows : List R) → IsNewestFirst rows → IsNewestFirst (keep p rows)
  IsNewestFirst-keep p [] d = tt
  IsNewestFirst-keep p (r ∷ rows) (h, a, d) = elim (Bool-cases (p r)) [
    | inl e ↦ rw e (h, All-keep _ p rows a, IsNewestFirst-keep p rows d)
    | inr e ↦ rw e (IsNewestFirst-keep p rows d)
  ]

  -- What a page whose last row is `y` says of the rows past it.
  abbrev IsCut : R → List R → List R → List R → Type 0
  IsCut y rows page past =
      (keep (below height (some (height y))) rows ≡ keep (below height (some (height y))) past)
      × All (λ s. height s ≤ height y) past
      × (1 ≤ height y)
      × (has_height height (height y) page ≡ true)

  drop-nil : (n : ℕ) → drop {A = R} n [] ≡ []
  drop-nil zero = refl
  drop-nil (suc n) = refl

  page-IsCut :
      (n : ℕ) (rows : List R) (y : R)
      → IsNewestFirst rows
      → last? (take (suc n) rows) ≡ some y
      → IsCut y rows (take (suc n) rows) (drop (suc n) rows)
  unfolding has_height
  page-IsCut n [] y d e = absurd (cc)
  page-IsCut zero (x ∷ xs) y (h, a, d) e =
      subst (λ y. IsCut y (x ∷ xs) (x ∷ []) xs) (some_inj e)
        (rw (le→ltb (height x) (height x) (omega arith)) refl, a, h, ground arith)
  page-IsCut (suc n) (x ∷ []) y (h, a, d) e =
      subst (λ y. IsCut y (x ∷ []) (x ∷ []) (drop (suc n) [])) (some_inj e)
        (rw (le→ltb (height x) (height x) (omega arith)) refl, tt, h, ground arith)
  page-IsCut (suc n) (x ∷ z ∷ zs) y (h, a, d) e =
      let (rest, past, y_pos, found) = page-IsCut n (z ∷ zs) y d e in
      let y_le =
        All-last (λ s. height s ≤ height x) (take (suc n) (z ∷ zs)) y
          (All-take (λ s. height s ≤ height x) (suc n) (z ∷ zs) a) e in
      (rw (le→ltb (height x) (height y) y_le) rest, past, y_pos, ground (arith, found))

  keep-has_height :
      (h bound : ℕ) (rows : List R)
      → h < bound
      → has_height height h rows ≡ true
      → has_height height h (keep (below height (some bound)) rows) ≡ true
  unfolding has_height
  keep-has_height h bound [] lt e = e
  keep-has_height h bound (r ∷ rows) lt e = ground (arith, keep-has_height h bound rows lt)

  IsCut-full :
      (n : ℕ) (rows : List R)
      → IsNewestFirst rows
      → length (take (suc n) rows) ≡ suc n
      → (y : R) × (last? (take (suc n) rows) ≡ some y)
      → (y : R) × (next_cursor height (suc n) (take (suc n) rows) ≡ some (height y))
        × (last? (take (suc n) rows) ≡ some y)
        × IsCut y rows (take (suc n) rows) (drop (suc n) rows)
        × (1 ≤ length rows)
  unfolding next_cursor
  IsCut-full n rows d full (y, e) = (
    y,
    rw (full, e) (ground arith),
    e,
    page-IsCut n rows y d e,
    omega (arith, full, length-take (suc n) rows),
  )

  IsCut-at :
      (limit : ℕ) (rows : List R)
      → IsNewestFirst rows
      → 1 ≤ limit
      → ((next_cursor height limit (take limit rows) ≡ none) × (take limit rows ≡ rows))
        ⊎ ((y : R) × (next_cursor height limit (take limit rows) ≡ some (height y))
            × (last? (take limit rows) ≡ some y)
            × IsCut y rows (take limit rows) (drop limit rows)
            × (1 ≤ length rows))
  unfolding next_cursor
  IsCut-at zero rows d h = absurd (omega arith)
  IsCut-at (suc n) rows d h = elim (Bool-cases (length (take (suc n) rows) == suc n)) [
    | inr partial ↦
        inl (rw partial, take_all (suc n) rows (ground (arith, length-take (suc n) rows)))
    | inl full ↦ inr (
        IsCut-full n rows d (==→eq _ _ full)
          (last?-some (take (suc n) rows) (omega (arith, ==→eq _ _ full))))
  ]

  -- A height of the listing is on the page, or past it and below the page's last row.
  covers :
      (k limit : ℕ) (y : R) (rows got : List R)
      → (has_height height (height y) (take limit rows) ≡ true)
      → All (λ s. height s ≤ height y) (drop limit rows)
      → (has_height height k (keep (below height (some (height y))) (drop limit rows)) ≡ true
          → has_height height k got ≡ true)
      → has_height height k rows ≡ true
      → has_height height k (take limit rows ++ got) ≡ true
  covers k limit y rows got found past later f =
      let whole = ap (has_height height k) (take-append-drop limit rows) in
      let split = has_height-append height k (take limit rows) (drop limit rows) in
      let goal = has_height-append height k (take limit rows) got in
      elim (Bool-cases (has_height height k (take limit rows))) [
        | inl here ↦ ground (arith, goal)
        | inr past_page ↦
            let after : has_height height k (drop limit rows) ≡ true =
              ground (arith, whole, split) in
            let le = has_height-bound height k (height y) (drop limit rows) past after in
            elim (Bool-cases (ltb k (height y))) [
              | inl lt ↦ ground (
                arith,
                goal,
                later
                    (keep-has_height k (height y) (drop limit rows) (ltb→lt k (height y) lt) after),
              )
              | inr ge ↦
                  let same : height y ≡ k = ground arith in
                  let clash =
                    subst (λ j. has_height height j (take limit rows) ≡ true) same found in
                  absurd (cc)
            ]
      ]

  -- A client at a cursor reads on to the end of `rows`: what it gets are rows of the list, in order
  -- and none twice, and one at least of every height that occurs.
  abbrev pub Reads : (Option ℕ → CursorPage R) → ℕ → Option ℕ → List R → Type 0
  Reads serve fuel c rows =
      (got : List R) × (follow height serve fuel c ≡ some got)
      × Sublist got rows
      × ((h : ℕ) → has_height height h rows ≡ true → has_height height h got ≡ true)

  module _ (limit : ℕ) (matching : List R) (serve : Option ℕ → CursorPage R)
      (s : Serves height limit matching serve) where
    served_page :
        (c : Option ℕ) (rows : List R)
        → keep (below height (cursor_set c)) matching ≡ rows
        → ((serve c).rows ≡ take limit rows)
          × ((serve c).next_cursor ≡ next_cursor height limit (take limit rows))
    served_page c rows e = (
      ap (λ p. p.rows) (s c) ∙ ap (take limit) e,
      ap (λ p. p.next_cursor) (s c) ∙ ap (λ m. next_cursor height limit (take limit m)) e,
    )

    follow-Reads :
        (rows : List R) (fuel : ℕ) (c : Option ℕ)
        → IsNewestFirst matching
        → 1 ≤ limit
        → keep (below height (cursor_set c)) matching ≡ rows
        → length rows < fuel
        → Reads serve fuel c rows
    unfolding follow
    follow-Reads rows zero c d h e m = absurd (omega arith)
    follow-Reads rows (suc fuel) c d h e m =
        let (page, next) = served_page c rows e in
        elim (IsCut-at limit rows (subst IsNewestFirst e (IsNewestFirst-keep _ matching d)) h) [
          | inl (ended, whole) ↦
              (rows, rw (next, ended, page, whole, follow) refl, Sublist_refl rows, λ k f. f)
          | inr (y, cursor, is_last, (rest, past, y_pos, found), nonempty) ↦
              let left = keep (below height (some (height y))) (drop limit rows) in
              let (got, read, sub, heights) =
                follow-Reads left fuel (some (height y)) d h
                  (ap (λ o. keep (below height o) matching) (cursor_set_pos height (height y) y_pos)
                    ∙ keep-next height limit matching rows (cursor_set c) y e is_last
                    ∙ rest)
                  (omega (
                    arith,
                    length-drop limit rows,
                    length-keep (below height (some (height y))) (drop limit rows),
                  )) in
              (
                take limit rows ++ got,
                rw (next, cursor, page, read, follow) refl,
                subst (Sublist (take limit rows ++ got)) (take-append-drop limit rows) (
                    Sublist_append (take limit rows)
                      (Sublist_trans (keep-Sublist _ (drop limit rows)) sub)),
                λ k f. covers k limit y rows got found past (heights k) f,
              )
        ]

    -- From the first page on, a client that follows the cursors comes to the end of the listing in
    -- at most one request more than there are rows. What it has read are rows of the listing, in
    -- order and none twice, and of every height that occurs in the listing it has read a row.
    pub follow_ends :
        (fuel : ℕ)
        → IsNewestFirst matching
        → 1 ≤ limit
        → length matching < fuel
        → Reads serve fuel none matching
    unfolding cursor_set
    follow_ends fuel d h m =
        follow-Reads matching fuel none d h (keep-All_id _ matching (All-true matching)) m
