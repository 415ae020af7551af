-- ===== src/Paging/Cursor/Sublists.antt =====
-- What is left of a list when some of its elements are taken out.
use safrochain_indexer.Prelude.{
  ℕ, Bool, true, false, List, [], ◌∷◌, ◌++◌, ◌||◌, ◌==◌, ◌≡◌, ◌≤◌, refl, keep, arith, Bool-cases,
  inl, inr, length, All,
}

-- The first list is the second with some of its elements taken out.
pub data Sublist {R : Type 0} : List R → List R → Type 0 where
  done : Sublist [] []
  left_out : {r : R} {xs ys : List R} → Sublist xs ys → Sublist xs (r ∷ ys)
  kept : {r : R} {xs ys : List R} → Sublist xs ys → Sublist (r ∷ xs) (r ∷ ys)

module _ {R : Type 0} where
  pub Sublist_refl : (xs : List R) → Sublist xs xs
  Sublist_refl [] = done
  Sublist_refl (x ∷ xs) = kept (Sublist_refl xs)

  pub Sublist_append :
      (xs : List R) {ys zs : List R} → Sublist ys zs → Sublist (xs ++ ys) (xs ++ zs)
  Sublist_append [] s = s
  Sublist_append (x ∷ xs) s = kept (Sublist_append xs s)

  pub Sublist_trans :
      {ys zs : List R} → Sublist ys zs → {xs : List R} → Sublist xs ys → Sublist xs zs
  Sublist_trans done s = s
  Sublist_trans (left_out t) s = left_out (Sublist_trans t s)
  Sublist_trans (kept t) (left_out s) = left_out (Sublist_trans t s)
  Sublist_trans (kept t) (kept s) = kept (Sublist_trans t s)

  pub keep-Sublist : (p : R → Bool) (xs : List R) → Sublist (keep p xs) xs
  keep-Sublist p [] = done
  keep-Sublist p (x ∷ xs) = elim (Bool-cases (p x)) [
    | inl e ↦ rw e (kept (keep-Sublist p xs))
    | inr e ↦ rw e (left_out (keep-Sublist p xs))
  ]

  pub All-Sublist {κ} : (P : R → Type κ) {xs ys : List R} → Sublist xs ys → All P ys → All P xs
  All-Sublist P done a = tt
  All-Sublist P (left_out s) (h, a) = All-Sublist P s a
  All-Sublist P (kept s) (h, a) = (h, All-Sublist P s a)

  pub length-keep : (p : R → Bool) (rows : List R) → length (keep p rows) ≤ length rows
  length-keep p [] = omega arith
  length-keep p (r ∷ rows) = ground (arith, length-keep p rows)

  -- Whether a row of a list has a height.
  unfoldable pub has_height : (R → ℕ) → ℕ → List R → Bool
  has_height height h [] = false
  has_height height h (r ∷ rows) = height r == h || has_height height h rows

  pub has_height-append :
      (height : R → ℕ) (h : ℕ) (xs ys : List R)
      → has_height height h (xs ++ ys) ≡ (has_height height h xs || has_height height h ys)
  unfolding has_height
  has_height-append height h [] ys = refl
  has_height-append height h (x ∷ xs) ys = ground (arith, has_height-append height h xs ys)

  pub has_height-bound :
      (height : R → ℕ) (h bound : ℕ) (rows : List R)
      → All (λ s. height s ≤ bound) rows
      → has_height height h rows ≡ true
      → h ≤ bound
  unfolding has_height
  has_height-bound height h bound [] a e = absurd (cc)
  has_height-bound height h bound (r ∷ rows) (le, a) e =
      ground (arith, has_height-bound height h bound rows a)
