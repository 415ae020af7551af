-- ===== src/Cors.antt =====
-- main.ts: which origins the CORS configuration admits. Texts are lists of code points; the host
-- name of a URL, none where `new URL` throws, is an argument, and so is the environment.
pub mod Laws
mod Tests
use safrochain_indexer.Prelude.{
  ℕ, Option, none, some, Bool, true, false, not, ◌&&◌, ◌||◌, List, [], ◌∷◌, map, keep, drop, length,
  ltb, ◌==◌, if◌then◌else◌,
}
use Prim.Native.String.{String}
use safrochain_indexer.Json.Text.{codes, starts_codes}
use safrochain_indexer.DateFilters.Texts.{split_commas, trim, same_codes}

abbrev pub is_empty : List ℕ → Bool
is_empty [] = true
is_empty (c ∷ s) = false

-- `raw.split(",").map((o) => o.trim()).filter(Boolean)`
unfoldable pub cors_origins_raw : List ℕ → List (List ℕ)
unfolding split_commas trim
cors_origins_raw raw = keep (λ o. not (is_empty o)) (map trim (split_commas raw))

-- `o.startsWith("*.")`
unfoldable pub is_wildcard : List ℕ → Bool
unfolding starts_codes
is_wildcard o = starts_codes o (codes "*.")

abbrev pub cors_wildcard_patterns : List (List ℕ) → List (List ℕ)
cors_wildcard_patterns origins = keep is_wildcard origins

abbrev pub cors_exact_origins : List (List ℕ) → List (List ℕ)
cors_exact_origins origins = keep (λ o. not (is_wildcard o)) origins

-- `text.endsWith(part)`
unfoldable pub ends_codes : List ℕ → List ℕ → Bool
unfolding same_codes
ends_codes [] part = same_codes [] part
ends_codes (c ∷ text) part = same_codes (c ∷ text) part || ends_codes text part

-- The body of `corsWildcardPatterns.some(...)`
unfoldable pub matches_pattern : List ℕ → List ℕ → Bool
unfolding ends_codes
matches_pattern hostname pattern =
    let domain = drop 2 pattern in same_codes hostname domain || ends_codes hostname (46 ∷ domain)

unfoldable pub some_of : (List ℕ → Bool) → List (List ℕ) → Bool
some_of p [] = false
some_of p (o ∷ origins) = p o || some_of p origins

-- What is handed to `enableCors`: a flag, a list of origins, or the callback for these exact
-- origins and patterns.
pub data CorsOrigin : Type 0 where
  flag : Bool → CorsOrigin
  exact : List (List ℕ) → CorsOrigin
  callback : List (List ℕ) → List (List ℕ) → CorsOrigin

unfoldable pub cors_origin : Bool → List ℕ → CorsOrigin
unfolding cors_origins_raw is_wildcard
cors_origin development raw =
    let origins = cors_origins_raw raw in
    if length origins == 0
    then flag development
    else if ltb 0 (length (cors_wildcard_patterns origins))
    then callback (cors_exact_origins origins) (cors_wildcard_patterns origins)
    else exact (cors_exact_origins origins)

abbrev host_matches : List (List ℕ) → Option (List ℕ) → Bool
host_matches patterns none = false
host_matches patterns (some hostname) = some_of (matches_pattern hostname) patterns

-- What the callback answers for an origin.
unfoldable pub callback_allows :
    (List ℕ → Option (List ℕ)) → List (List ℕ) → List (List ℕ) → List ℕ → Bool
unfolding some_of matches_pattern
callback_allows hostname_of exacts patterns origin =
    if is_empty origin
    then false
    else if some_of (λ o. same_codes o origin) exacts
    then true
    else host_matches patterns (hostname_of origin)
