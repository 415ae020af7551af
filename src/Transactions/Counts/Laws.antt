-- ===== src/Transactions/Counts/Laws.antt =====
-- What the cached counts of recent transactions guarantee, and what they do not.
use safrochain_indexer.Prelude.{
  ℕ, ◌+◌, ◌≤◌, ◌<◌, Option, none, some, true, false, ◌≡◌, ◌⊎◌, inl, inr, arith, Bool-cases,
}
use safrochain_indexer.Transactions.Counts.{
  Period, last_24h, last_7d, CountsCache, initial_cache, counts_cache_ttl_ms, is_fresh,
  run_counts_query, get_transaction_counts_recent,
}

module _ (day week : ℕ → ℕ) where
  -- What a cache holds is what the queries gave when it was filled.
  pub record IsTruthful (cache : CountsCache) : Type 0 where
    pub day_is : (c : ℕ) → cache.last_24h ≡ some c → c ≡ day cache.updated_at
    pub week_is : (c : ℕ) → cache.last_7d ≡ some c → c ≡ week cache.updated_at

  -- The caches that a service can have after some requests, whatever their times and periods.
  pub data Reach : CountsCache → Type 0 where
    started : Reach initial_cache
    requested :
        {cache : CountsCache} (now later : ℕ) (period : Option Period)
        → Reach cache
        → Reach (get_transaction_counts_recent day week now later period cache).0

  IsTruthful-step :
      (now later : ℕ) (period : Option Period) (cache : CountsCache)
      → IsTruthful cache
      → IsTruthful (get_transaction_counts_recent day week now later period cache).0
  unfolding get_transaction_counts_recent
  IsTruthful-step now later period cache t = ground arith

  pub Reach-IsTruthful : {cache : CountsCache} → Reach cache → IsTruthful cache
  Reach-IsTruthful started = record { day_is = λ c e. absurd (cc); week_is = λ c e. absurd (cc) }
  Reach-IsTruthful (requested now later period r) =
      IsTruthful-step now later period _ (Reach-IsTruthful r)

  -- A count that is at most ten seconds old, by the clock that the service reads.
  abbrev pub IsRecent : (ℕ → ℕ) → ℕ → ℕ → ℕ → Type 0
  IsRecent count now later c =
      (c ≡ count later) ⊎ ((at : ℕ) × (c ≡ count at) × (now < at + counts_cache_ttl_ms))

  is_fresh-lt :
      (now : ℕ) (cache : CountsCache)
      → is_fresh cache now ≡ true
      → now < cache.updated_at + counts_cache_ttl_ms
  unfolding is_fresh
  is_fresh-lt now cache fresh = ground arith

  fresh_day :
      (now later : ℕ) (period : Option Period) (cache : CountsCache) (c : ℕ)
      → is_fresh cache now ≡ true
      → (get_transaction_counts_recent day week now later period cache).1.last_24h ≡ some c
      → cache.last_24h ≡ some c
  unfolding get_transaction_counts_recent
  fresh_day now later none cache c f e = ground arith
  fresh_day now later (some last_24h) cache c f e = ground arith
  fresh_day now later (some last_7d) cache c f e = ground arith

  fresh_week :
      (now later : ℕ) (period : Option Period) (cache : CountsCache) (c : ℕ)
      → is_fresh cache now ≡ true
      → (get_transaction_counts_recent day week now later period cache).1.last_7d ≡ some c
      → cache.last_7d ≡ some c
  unfolding get_transaction_counts_recent
  fresh_week now later none cache c f e = ground arith
  fresh_week now later (some last_24h) cache c f e = ground arith
  fresh_week now later (some last_7d) cache c f e = ground arith

  stale_day :
      (now later : ℕ) (period : Option Period) (cache : CountsCache) (c : ℕ)
      → is_fresh cache now ≡ false
      → (get_transaction_counts_recent day week now later period cache).1.last_24h ≡ some c
      → c ≡ day later
  unfolding get_transaction_counts_recent
  stale_day now later none cache c f e = ground arith
  stale_day now later (some last_24h) cache c f e = ground arith
  stale_day now later (some last_7d) cache c f e = ground arith

  stale_week :
      (now later : ℕ) (period : Option Period) (cache : CountsCache) (c : ℕ)
      → is_fresh cache now ≡ false
      → (get_transaction_counts_recent day week now later period cache).1.last_7d ≡ some c
      → c ≡ week later
  unfolding get_transaction_counts_recent
  stale_week now later none cache c f e = ground arith
  stale_week now later (some last_24h) cache c f e = ground arith
  stale_week now later (some last_7d) cache c f e = ground arith

  -- After any requests, each count in an answer was queried for this request, or less than ten
  -- seconds before it.
  pub get_transaction_counts_recent-IsRecent :
      (now later : ℕ) (period : Option Period) (cache : CountsCache)
      → Reach cache
      → (let answer = (get_transaction_counts_recent day week now later period cache).1 in
          ((c : ℕ) → answer.last_24h ≡ some c → IsRecent day now later c)
          × ((c : ℕ) → answer.last_7d ≡ some c → IsRecent week now later c))
  get_transaction_counts_recent-IsRecent now later period cache r =
      let t = Reach-IsTruthful r in
      elim (Bool-cases (is_fresh cache now)) [
        | inl fresh ↦ (
          λ c e. inr (
            cache.updated_at,
            t.day_is c (fresh_day now later period cache c fresh e),
            is_fresh-lt now cache fresh,
          ),
          λ c e. inr (
            cache.updated_at,
            t.week_is c (fresh_week now later period cache c fresh e),
            is_fresh-lt now cache fresh,
          ),
        )
        | inr stale ↦ (
          λ c e. inl (stale_day now later period cache c stale e),
          λ c e. inl (stale_week now later period cache c stale e),
        )
      ]

  -- When a request for both counts has filled the cache, every request within ten seconds is
  -- answered with the counts of its period, and leaves the cache as it is.
  pub cached_after_full :
      (now later now' later' : ℕ) (period : Option Period) (cache : CountsCache)
      → is_fresh cache now ≡ false
      → 1 ≤ later
      → now' < later + counts_cache_ttl_ms
      → (let filled = (get_transaction_counts_recent day week now later none cache).0 in
          get_transaction_counts_recent day week now' later' period filled
          ≡ (filled, run_counts_query (day later) (week later) period))
  unfolding get_transaction_counts_recent is_fresh
  cached_after_full now later now' later' period cache stale h k = ground arith

  -- When a request for the last day has filled the cache, a request for the last week within ten
  -- seconds is answered with no count at all, whatever the database holds.
  pub cached_after_24h :
      (now later now' later' : ℕ) (cache : CountsCache)
      → is_fresh cache now ≡ false
      → 1 ≤ later
      → now' < later + counts_cache_ttl_ms
      → (let filled = (get_transaction_counts_recent day week now later (some last_24h) cache).0 in
          (get_transaction_counts_recent day week now' later' (some last_7d) filled).1
          ≡ record { last_24h = none; last_7d = none })
  unfolding get_transaction_counts_recent is_fresh
  cached_after_24h now later now' later' cache stale h k = ground arith
