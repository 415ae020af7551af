-- ===== src/Cors/Laws.antt =====
-- The origins that the callback admits.
use safrochain_indexer.Prelude.{
  ℕ, Option, some, Bool, true, false, ◌||◌, List, [], ◌∷◌, ◌++◌, drop, ◌≡◌, ◌↔◌, ◌⊎◌, inl, inr,
  refl, ap, arith, Bool-cases, Option-cases, ◌==◌, ==→eq, and-eq-true,
}
use safrochain_indexer.DateFilters.Texts.{same_codes}
use safrochain_indexer.Cors.{ends_codes, matches_pattern, some_of, callback_allows, is_empty}

same_codes_iff : (s t : List ℕ) → (same_codes s t ≡ true) ↔ (s ≡ t)
unfolding same_codes
same_codes_iff [] [] = (λ h. refl, λ e. refl)
same_codes_iff [] (b ∷ t) = (λ h. absurd (cc), λ e. absurd (cc))
same_codes_iff (a ∷ s) [] = (λ h. absurd (cc), λ e. absurd (cc))
same_codes_iff (a ∷ s) (b ∷ t) =
    let (to, from) = same_codes_iff s t in
    (
      λ h.
          let (e, k) = and-eq-true (a == b) (same_codes s t) h in
          let head : a ≡ b = ==→eq a b e in let tail : s ≡ t = to k in cc,
      λ e. let head : a ≡ b = cc in let tail : s ≡ t = cc in ground (arith, head, from tail),
    )

-- A text that ends with a part.
abbrev pub EndsWith : List ℕ → List ℕ → Type 0
EndsWith text part = (front : List ℕ) × (text ≡ front ++ part)

no_front : (front part : List ℕ) → [] ≡ front ++ part → [] ≡ part
no_front [] part e = e
no_front (c ∷ front) part e = absurd (cc)

some_front :
    (c : ℕ) (text part front : List ℕ)
    → c ∷ text ≡ front ++ part
    → (c ∷ text ≡ part → same_codes (c ∷ text) part ≡ true)
    → ((f : List ℕ) → text ≡ f ++ part → ends_codes text part ≡ true)
    → (same_codes (c ∷ text) part || ends_codes text part) ≡ true
some_front c text part [] e here later = ground (arith, here e)
some_front c text part (d ∷ front) e here later =
    let rest : text ≡ front ++ part = cc in ground (arith, later front rest)

ends_codes_iff : (text part : List ℕ) → (ends_codes text part ≡ true) ↔ EndsWith text part
unfolding ends_codes
ends_codes_iff [] part = (
  λ h. ([], (same_codes_iff [] part).0 h),
  λ (front, e). (same_codes_iff [] part).1 (no_front front part e),
)
ends_codes_iff (c ∷ text) part =
    let (to, from) = ends_codes_iff text part in
    (
      λ h. elim (Bool-cases (same_codes (c ∷ text) part)) [
        | inl here ↦ ([], (same_codes_iff (c ∷ text) part).0 here)
        | inr later ↦ let (front, e) = to (ground arith) in (c ∷ front, ap (λ t. c ∷ t) e)
      ],
      λ (front, e).
          some_front c text part front e (same_codes_iff (c ∷ text) part).1 (λ f k. from (f, k)),
    )

-- Some member of a list has a property.
abbrev pub SomeOf : (List ℕ → Type 0) → List (List ℕ) → Type 0
SomeOf P [] = ⊥
SomeOf P (o ∷ origins) = P o ⊎ SomeOf P origins

some_of_iff :
    (p : List ℕ → Bool) (P : List ℕ → Type 0)
    → ((o : List ℕ) → (p o ≡ true) ↔ P o)
    → (origins : List (List ℕ)) → (some_of p origins ≡ true) ↔ SomeOf P origins
unfolding some_of
some_of_iff p P h [] = (λ e. absurd (cc), λ e. absurd e)
some_of_iff p P h (o ∷ origins) =
    let (to, from) = some_of_iff p P h origins in
    (
      λ e. elim (Bool-cases (p o)) [
        | inl here ↦ inl ((h o).0 here)
        | inr later ↦ inr (to (ground arith))
      ],
      λ s. elim s [
        | inl here ↦ ground (arith, (h o).1 here)
        | inr later ↦ ground (arith, from later)
      ],
    )

-- A host name is the domain of a pattern `*.domain`, or below it, with a dot in front.
abbrev pub IsUnder : List ℕ → List ℕ → Type 0
IsUnder hostname pattern = (hostname ≡ drop 2 pattern) ⊎ EndsWith hostname (46 ∷ drop 2 pattern)

matches_pattern_iff :
    (hostname pattern : List ℕ)
    → (matches_pattern hostname pattern ≡ true) ↔ IsUnder hostname pattern
unfolding matches_pattern
matches_pattern_iff hostname pattern =
    let (same_to, same_from) = same_codes_iff hostname (drop 2 pattern) in
    let (ends_to, ends_from) = ends_codes_iff hostname (46 ∷ drop 2 pattern) in
    (
      λ e. elim (Bool-cases (same_codes hostname (drop 2 pattern))) [
        | inl here ↦ inl (same_to here)
        | inr later ↦ inr (ends_to (ground arith))
      ],
      λ u. elim u [
        | inl here ↦ ground (arith, same_from here)
        | inr below ↦ ground (arith, ends_from below)
      ],
    )

-- The origin is a listed one, or its host name is under a pattern's domain.
abbrev pub IsAdmitted : (List ℕ → Option (List ℕ)) → List (List ℕ) → List (List ℕ) → List ℕ → Type 0
IsAdmitted hostname_of exacts patterns origin =
    (is_empty origin ≡ false)
    × (SomeOf (λ o. o ≡ origin) exacts
        ⊎ ((hostname : List ℕ) × (hostname_of origin ≡ some hostname)
            × SomeOf (IsUnder hostname) patterns))

-- The callback admits an origin exactly when it is not empty and is one of the exact origins, or
-- is a URL whose host name is the domain of a wildcard pattern or ends with a dot and the domain. So
-- a host name that merely ends with a domain's letters is not admitted.
pub callback_allows_iff :
    (hostname_of : List ℕ → Option (List ℕ)) (exacts patterns : List (List ℕ)) (origin : List ℕ)
    → (callback_allows hostname_of exacts patterns origin ≡ true)
      ↔ IsAdmitted hostname_of exacts patterns origin
unfolding callback_allows
callback_allows_iff hostname_of exacts patterns [] = (λ e. absurd (cc), λ (e, a). absurd (cc))
callback_allows_iff hostname_of exacts patterns (c ∷ s) =
    let (listed_to, listed_from) =
      some_of_iff (λ o. same_codes o (c ∷ s)) (λ o. o ≡ c ∷ s) (λ o. same_codes_iff o (c ∷ s))
        exacts in
    (
      λ e. elim (Bool-cases (some_of (λ o. same_codes o (c ∷ s)) exacts)) [
        | inl here ↦ (refl, inl (listed_to here))
        | inr other ↦ elim (Option-cases (hostname_of (c ∷ s))) [
          | inl missing ↦ absurd (let f = rw (other, missing, callback_allows) at e in cc)
          | inr (h, found) ↦ (
            refl,
            inr (
              h,
              found,
              (some_of_iff (matches_pattern h) (IsUnder h) (matches_pattern_iff h) patterns).0
                  (rw (other, found, callback_allows) at e),
            ),
          )
        ]
      ],
      λ (n, a). elim a [
        | inl here ↦ rw (listed_from here) refl
        | inr (h, found, under) ↦
            let matched =
              (some_of_iff (matches_pattern h) (IsUnder h) (matches_pattern_iff h) patterns).1
                under in
            elim (Bool-cases (some_of (λ o. same_codes o (c ∷ s)) exacts)) [
              | inl here ↦ rw here refl
              | inr other ↦ rw (other, found, callback_allows) matched
            ]
      ],
    )
