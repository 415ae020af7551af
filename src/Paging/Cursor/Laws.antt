-- ===== src/Paging/Cursor/Laws.antt =====
-- Following `next_cursor`: what the pages of one listing add up to.
use safrochain_indexer.Prelude.{
  ℕ, zero, suc, ◌≤◌, ◌<◌, Option, none, some, Bool, true, List, [], ◌∷◌, ◌++◌, ◌≡◌, ◌∙◌, refl, ap,
  subst, sym, length, take, drop, keep, last?, All, ◌==◌, ◌&&◌, arith, Bool-cases, ◌⊎◌, inl, inr,
  length-drop, length-take, take_all, take-append-drop, le→ltb, ltb→lt, some_inj, ==→eq,
}
use safrochain_indexer.Paging.Cursor.{
  CursorPage, cursor_set, next_cursor, IsDescending, below, follow,
}

take-append : {R : Type 0} (n : ℕ) (xs ys : List R) → length xs ≡ n → take n (xs ++ ys) ≡ xs
take-append zero [] ys e = refl
take-append zero (x ∷ xs) ys e = absurd (omega arith)
take-append (suc n) [] ys e = absurd (omega arith)
take-append (suc n) (x ∷ xs) ys e = ap (λ r. x ∷ r) (take-append n xs ys (omega arith))

module _ {R : Type 0} where
  pub All-keep {κ} :
      (P : R → Type κ) (p : R → Bool) (rows : List R) → All P rows → All P (keep p rows)
  All-keep P p [] a = tt
  All-keep P p (r ∷ rows) (h, a) = elim (Bool-cases (p r)) [
    | inl e ↦ rw e (h, All-keep P p rows a)
    | inr e ↦ rw e (All-keep P p rows a)
  ]

  -- What a filter keeps passes it.
  pub keep-All : (p : R → Bool) (rows : List R) → All (λ r. p r ≡ true) (keep p rows)
  keep-All p [] = tt
  keep-All p (r ∷ rows) = elim (Bool-cases (p r)) [
    | inl e ↦ rw e (e, keep-All p rows)
    | inr e ↦ rw e (keep-All p rows)
  ]

  pub All-take {κ} : (P : R → Type κ) (n : ℕ) (rows : List R) → All P rows → All P (take n rows)
  All-take P zero rows a = tt
  All-take P (suc n) [] a = tt
  All-take P (suc n) (r ∷ rows) (h, a) = (h, All-take P n rows a)

  pub All-last {κ} :
      (P : R → Type κ) (rows : List R) (y : R) → All P rows → last? rows ≡ some y → P y
  All-last P [] y a e = absurd (cc)
  All-last P (r ∷ []) y (h, a) e = subst P (some_inj e) h
  All-last P (r ∷ s ∷ rows) y (h, a) e = All-last P (s ∷ rows) y a e

  -- Filtering by a stronger test alone is the same as filtering twice.
  pub keep-keep :
      (p q : R → Bool) (rows : List R)
      → ((r : R) → q r ≡ true → p r ≡ true)
      → keep q (keep p rows) ≡ keep q rows
  keep-keep p q [] h = refl
  keep-keep p q (r ∷ rows) h = ground (arith, h r, keep-keep p q rows h)

  pub keep-All_id : (p : R → Bool) (rows : List R) → All (λ r. p r ≡ true) rows → keep p rows ≡ rows
  keep-All_id p [] a = refl
  keep-All_id p (r ∷ rows) (h, a) = rw h (ap (λ s. r ∷ s) (keep-All_id p rows a))

  pub last?-some : (rows : List R) → 1 ≤ length rows → (y : R) × (last? rows ≡ some y)
  last?-some [] h = absurd (omega arith)
  last?-some (r ∷ []) h = (r, refl)
  last?-some (r ∷ s ∷ rows) h = last?-some (s ∷ rows) (omega arith)

pub All-imp :
    {R : Type 0} (P Q : R → Type 0) (rows : List R)
    → ((r : R) → P r → Q r)
    → All P rows
    → All Q rows
All-imp P Q [] f a = tt
All-imp P Q (r ∷ rows) f (h, a) = (f r h, All-imp P Q rows f a)

-- Filtering by a conjunction is filtering twice.
pub keep-and :
    {R : Type 0} (p q s : R → Bool) (rows : List R)
    → ((r : R) → s r ≡ (p r && q r))
    → keep s rows ≡ keep q (keep p rows)
keep-and p q s [] h = refl
keep-and p q s (r ∷ rows) h = ground (arith, h r, keep-and p q s rows h)

pub All-true : {R : Type 0} (rows : List R) → All (λ r. ◌≡◌ {A = Bool} true true) rows
All-true [] = tt
All-true (r ∷ rows) = (refl, All-true rows)

module _ {R : Type 0} (height : R → ℕ) where
  pub IsDescending-keep :
      (p : R → Bool) (rows : List R) → IsDescending height rows → IsDescending height (keep p rows)
  IsDescending-keep p [] d = tt
  IsDescending-keep p (r ∷ rows) (h, a, d) = elim (Bool-cases (p r)) [
    | inl e ↦ rw e (h, All-keep _ p rows a, IsDescending-keep p rows d)
    | inr e ↦ rw e (IsDescending-keep p rows d)
  ]

  below-All :
      (y : ℕ) (rows : List R)
      → All (λ s. height s < y) rows
      → All (λ s. below height (some y) s ≡ true) rows
  below-All y [] a = tt
  below-All y (r ∷ rows) (h, a) = (ground arith, below-All y rows a)

  -- The rows below the last one of a full page are the rows past that page.
  keep-below-last :
      (n : ℕ) (rows : List R) (y : R)
      → IsDescending height rows
      → last? (take (suc n) rows) ≡ some y
      → (keep (below height (some (height y))) rows ≡ drop (suc n) rows) × (1 ≤ height y)
  keep-below-last n [] y d e = absurd (cc)
  keep-below-last zero (x ∷ xs) y (h, a, d) e =
      subst (λ y. (keep (below height (some (height y))) (x ∷ xs) ≡ xs) × (1 ≤ height y))
        (some_inj e)
        (rw (le→ltb (height x) (height x) (omega arith)) (keep-All_id _ xs (below-All _ xs a)), h)
  keep-below-last (suc n) (x ∷ []) y (h, a, d) e =
      subst (λ y. (keep (below height (some (height y))) (x ∷ []) ≡ []) × (1 ≤ height y))
        (some_inj e) (rw (le→ltb (height x) (height x) (omega arith)) refl, h)
  keep-below-last (suc n) (x ∷ z ∷ zs) y (h, a, d) e =
      let (rest, y_pos) = keep-below-last n (z ∷ zs) y d e in
      let y_lt =
        All-last (λ s. height s < height x) (take (suc n) (z ∷ zs)) y
          (All-take (λ s. height s < height x) (suc n) (z ∷ zs) a) e in
      (rw (le→ltb (height x) (height y) (omega arith)) rest, y_pos)

  -- An endpoint that answers from one listing: the rows that meet its filters, newest first.
  abbrev pub Serves : ℕ → List R → (Option ℕ → CursorPage R) → Type 0
  Serves limit matching serve =
      (c : Option ℕ)
      → (let rows = take limit (keep (below height (cursor_set c)) matching) in
          serve c ≡ record { rows = rows; next_cursor = next_cursor height limit rows })

  page_full :
      (n : ℕ) (rows : List R)
      → IsDescending height rows
      → length (take (suc n) rows) ≡ suc n
      → (y : R) × (last? (take (suc n) rows) ≡ some y)
      → ((next_cursor height (suc n) (take (suc n) rows) ≡ none) × (take (suc n) rows ≡ rows))
        ⊎ ((y : R) × (next_cursor height (suc n) (take (suc n) rows) ≡ some (height y))
            × (keep (below height (some (height y))) rows ≡ drop (suc n) rows)
            × (1 ≤ height y)
            × (last? (take (suc n) rows) ≡ some y)
            × (suc n ≤ length rows))
  unfolding next_cursor
  page_full n rows d full (y, e) =
      let (rest, y_pos) = keep-below-last n rows y d e in
      inr (
        y,
        rw (full, e) (ground arith),
        rest,
        y_pos,
        e,
        omega (arith, full, length-take (suc n) rows),
      )

  -- One page over a suffix of the listing: either it ends the listing, or its cursor asks for what
  -- is past it.
  page_step :
      (limit : ℕ) (rows : List R)
      → IsDescending height rows
      → 1 ≤ limit
      → ((next_cursor height limit (take limit rows) ≡ none) × (take limit rows ≡ rows))
        ⊎ ((y : R) × (next_cursor height limit (take limit rows) ≡ some (height y))
            × (keep (below height (some (height y))) rows ≡ drop limit rows)
            × (1 ≤ height y)
            × (last? (take limit rows) ≡ some y)
            × (limit ≤ length rows))
  unfolding next_cursor
  page_step (suc n) rows d h = elim (Bool-cases (length (take (suc n) rows) == suc n)) [
    | inr partial ↦
        inl (rw partial, take_all (suc n) rows (ground (arith, length-take (suc n) rows)))
    | inl full ↦
        page_full n rows d (==→eq _ _ full)
          (last?-some (take (suc n) rows) (omega (arith, ==→eq _ _ full)))
  ]
  page_step zero rows d h = absurd (omega arith)

  pub cursor_set_pos : (n : ℕ) → 1 ≤ n → cursor_set (some n) ≡ some n
  unfolding cursor_set
  cursor_set_pos zero h = absurd (omega arith)
  cursor_set_pos (suc n) h = refl

  below_trans :
      (o : Option ℕ) (y r : R)
      → below height o y ≡ true
      → below height (some (height y)) r ≡ true
      → below height o r ≡ true
  below_trans none y r a b = refl
  below_trans (some n) y r a b = ground arith

  -- The cursor of a full page asks for exactly what is left of the listing past that page.
  pub keep-next :
      (limit : ℕ) (matching rows : List R) (c : Option ℕ) (y : R)
      → keep (below height c) matching ≡ rows
      → last? (take limit rows) ≡ some y
      → keep (below height (some (height y))) matching ≡ keep (below height (some (height y))) rows
  keep-next limit matching rows c y e is_last =
      let passes =
        subst (All (λ r. below height c r ≡ true)) e (keep-All (below height c) matching) in
      let y_passes = All-last _ (take limit rows) y (All-take _ limit rows passes) is_last in
      sym (
        keep-keep (below height c) (below height (some (height y))) matching
          (λ r b. below_trans c y r y_passes b))
      ∙ ap (keep (below height (some (height y)))) e

  lt-All :
      (y : ℕ) (rows : List R)
      → All (λ s. below height (some y) s ≡ true) rows
      → All (λ s. height s < y) rows
  lt-All y [] a = tt
  lt-All y (r ∷ rows) (h, a) = (ltb→lt (height r) y h, lt-All y rows a)

  full_cursor :
      (limit : ℕ) (xs : List R) (x : R) (hy : ℕ)
      → length xs ≡ limit
      → last? xs ≡ some x
      → height x ≡ hy
      → next_cursor height limit xs ≡ some hy
  unfolding next_cursor
  full_cursor limit [] x hy full e tied = absurd (cc)
  full_cursor limit (r ∷ xs) x hy full e tied = rw e (ground arith)

  module _ (limit : ℕ) (matching : List R) (serve : Option ℕ → CursorPage R)
      (s : Serves limit matching serve) where
    served_rows :
        (c : Option ℕ) (rows : List R)
        → keep (below height (cursor_set c)) matching ≡ rows
        → (serve c).rows ≡ take limit rows
    served_rows c rows e = ap (λ p. p.rows) (s c) ∙ ap (take limit) e

    served_next :
        (c : Option ℕ) (rows : List R)
        → keep (below height (cursor_set c)) matching ≡ rows
        → (serve c).next_cursor ≡ next_cursor height limit (take limit rows)
    served_next c rows e =
        ap (λ p. p.next_cursor) (s c) ∙ ap (λ m. next_cursor height limit (take limit m)) e

    -- A client at a cursor past which `rows` is what is left of the listing.
    follow_from :
        (rows : List R) (fuel : ℕ) (c : Option ℕ)
        → IsDescending height matching
        → 1 ≤ limit
        → keep (below height (cursor_set c)) matching ≡ rows
        → length rows < fuel
        → follow height serve fuel c ≡ some rows
    unfolding follow
    follow_from rows zero c d h e m = absurd (omega arith)
    follow_from rows (suc fuel) c d h e m =
        elim (page_step limit rows (subst (IsDescending height) e (IsDescending-keep _ matching d))
          h) [
            | inl (ended, whole) ↦
                ground (arith, served_next c rows e, served_rows c rows e, ended, whole)
            | inr (y, next, rest, y_pos, is_last, fits) ↦ ground (
              arith,
              served_next c rows e,
              served_rows c rows e,
              next,
              take-append-drop limit rows,
              follow_from (drop limit rows) fuel (some (height y)) d h
                  (ap (λ o. keep (below height o) matching) (cursor_set_pos (height y) y_pos)
                    ∙ keep-next limit matching rows (cursor_set c) y e is_last
                    ∙ rest)
                  (omega (arith, length-drop limit rows)),
            )
          ]

    -- From the first page on, a client that follows the cursors gets the whole listing, each row
    -- once and in order, in at most one request more than there are rows.
    pub follow_all :
        (fuel : ℕ)
        → IsDescending height matching
        → 1 ≤ limit
        → length matching < fuel
        → follow height serve fuel none ≡ some matching
    unfolding cursor_set
    follow_all fuel d h m =
        follow_from matching fuel none d h (keep-All_id _ matching (All-true matching)) m

    -- Two rows at one height, the first of them the last of the page: the second is lost.
    module _ (xs zs : List R) (x y : R) (split : matching ≡ xs ++ y ∷ zs) (full : length xs ≡ limit)
        (is_last : last? xs ≡ some x) (tied : height x ≡ height y) (y_pos : 1 ≤ height y) where
      take_split : take limit matching ≡ xs
      take_split = ap (take limit) split ∙ take-append limit xs (y ∷ zs) full

      -- The first page ends in front of the row, its cursor is the row's height, and every row of
      -- the page that the cursor asks for is below that height.
      pub tied_row_lost :
          ((serve none).rows ≡ xs)
          × ((serve none).next_cursor ≡ some (height y))
          × All (λ r. height r < height y) (serve (some (height y))).rows
      unfolding cursor_set
      tied_row_lost =
          let hy = height y in
          let left = keep (below height (some hy)) matching in
          let asked = ap (λ o. keep (below height o) matching) (cursor_set_pos hy y_pos) in
          (
            served_rows none matching (keep-All_id _ matching (All-true matching)) ∙ take_split,
            served_next none matching (keep-All_id _ matching (All-true matching))
                ∙ ap (next_cursor height limit) take_split
                ∙ full_cursor limit xs x hy full is_last tied,
            rw (served_rows (some hy) left asked) (
                All-take _ limit left
                  (lt-All hy left (keep-All (below height (some hy)) matching))),
          )
