-- ===== src/Cors/Tests.antt =====
-- The callback on two origins.
use safrochain_indexer.Prelude.{ℕ, Option, some, true, false, List, [], ◌∷◌, drop, ◌≡◌, ◌↔◌, refl}
use safrochain_indexer.Json.Text.{codes, starts_codes}
use safrochain_indexer.DateFilters.Texts.{split_commas, trim, trim_start, same_codes}
use safrochain_indexer.Cors.{
  cors_origins_raw, cors_origin, is_wildcard, callback, callback_allows, some_of, matches_pattern,
  ends_codes,
}
use safrochain_indexer.Cors.Laws.{IsAdmitted, callback_allows_iff}

-- A URL's host name, for URLs that begin with `http://`.
abbrev host_of : List ℕ → Option (List ℕ)
host_of url = some (drop 7 url)

abbrev patterns : List (List ℕ)
patterns = codes "*.safro.io" ∷ []

settings :
    cors_origin false (codes "http://a.b, *.safro.io") ≡ callback (codes "http://a.b" ∷ []) patterns
unfolding cors_origin cors_origins_raw is_wildcard split_commas trim trim_start starts_codes
settings = refl

look_alike : callback_allows host_of [] patterns (codes "http://evilsafro.io") ≡ false
unfolding callback_allows some_of matches_pattern ends_codes same_codes
look_alike = refl

callback_allows_iff_example :
    (callback_allows host_of [] patterns (codes "http://api.safro.io") ≡ true)
    ↔ IsAdmitted host_of [] patterns (codes "http://api.safro.io")
callback_allows_iff_example = callback_allows_iff host_of [] patterns (codes "http://api.safro.io")
