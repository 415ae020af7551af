-- ===== src/Paging/Cursor/Endpoint.antt =====
-- A cursor endpoint as the services write it: filters, the cursor's condition, newest first, limited.
use safrochain_indexer.Prelude.{
  ℕ, Option, none, some, Bool, ◌&&◌, List, [], ◌∷◌, ◌++◌, take, keep, all, ltb, ◌≡◌, refl, ap, ◌∙◌,
  arith,
}
use safrochain_indexer.Paging.Query.{SelectQuery, SortOrder, desc, when_given, Answers}
use safrochain_indexer.Paging.Cursor.{cursor_set, next_cursor, below}
use safrochain_indexer.Paging.Cursor.Laws.{Serves, keep-and}

all-append :
    {C : Type 0} (p : C → Bool) (xs ys : List C) → all p (xs ++ ys) ≡ (all p xs && all p ys)
all-append p [] ys = refl
all-append p (x ∷ xs) ys = ground (arith, all-append p xs ys)

module _ {C F : Type 0} (filters : List C) (below_condition : ℕ → C) (by : F) (limit : ℕ) where
  -- The query at a cursor.
  abbrev pub cursor_query : Option ℕ → SelectQuery C F
  cursor_query cursor = record {
    conditions = filters ++ when_given (cursor_set cursor) below_condition;
    order_by = by;
    order = desc;
    limit = some limit;
    offset = none;
  }

module _ {R C F : Type 0} (height : R → ℕ) (holds : C → R → Bool) (sorted : F → SortOrder → List R)
    (get_many : SelectQuery C F → List R) (answers : Answers holds sorted get_many)
    (filters : List C) (below_condition : ℕ → C) (by : F) (limit : ℕ)
    (below_holds : (n : ℕ) (r : R) → holds (below_condition n) r ≡ ltb (height r) n) where
  -- The rows that pass the filters, newest first.
  abbrev pub listing : List R
  listing = keep (λ r. all (λ c. holds c r) filters) (sorted by desc)

  cursor_meets :
      (c : Option ℕ) (r : R)
      → all (λ k. holds k r) (when_given c below_condition) ≡ below height c r
  cursor_meets none r = refl
  cursor_meets (some n) r = ground (arith, below_holds n r)

  kept :
      (c : Option ℕ)
      → keep
          (λ r. all (λ k. holds k r) (filters ++ when_given (cursor_set c) below_condition))
          (sorted by desc)
        ≡ keep (below height (cursor_set c)) listing
  kept c = keep-and _ _ _ (sorted by desc) (λ r.
      all-append (λ k. holds k r) filters (when_given (cursor_set c) below_condition)
      ∙ ap (λ x. all (λ k. holds k r) filters && x) (cursor_meets (cursor_set c) r))

  pub served :
      (c : Option ℕ)
      → get_many (cursor_query filters below_condition by limit c)
        ≡ take limit (keep (below height (cursor_set c)) listing)
  served c = answers (cursor_query filters below_condition by limit c) ∙ ap (take limit) (kept c)

  pub cursor_query-Serves : Serves height limit listing (λ c.
      let rows = get_many (cursor_query filters below_condition by limit c) in
      record { rows = rows; next_cursor = next_cursor height limit rows })
  cursor_query-Serves c =
      ap (λ rows. record { rows = rows; next_cursor = next_cursor height limit rows }) (served c)
