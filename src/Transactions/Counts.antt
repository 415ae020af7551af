-- ===== src/Transactions/Counts.antt =====
-- `getTransactionCountsRecent` with its in-memory cache, and `runCountsQuery`. The two SQL counts
-- are the arguments `day` and `week`, as functions of the time at which the query ends; a request
-- reads the clock at its start, `now`, and, if it queried, at its end, `later`.
pub mod Laws
use safrochain_indexer.Prelude.{
  ℕ, ◌-◌, Option, none, some, Bool, true, false, not, ◌&&◌, ltb, ◌==◌, if◌then◌else◌,
}

-- "24h" and "7d"
pub data Period : Type 0 where
  last_24h last_7d : Period

pub record TransactionCounts : Type 0 where
  pub last_24h : Option ℕ
  pub last_7d : Option ℕ

pub record CountsCache : Type 0 where
  pub last_24h : Option ℕ
  pub last_7d : Option ℕ
  pub updated_at : ℕ

-- The cache of a service that was just made.
abbrev pub initial_cache : CountsCache
initial_cache = record { last_24h = none; last_7d = none; updated_at = 0 }

-- `COUNTS_CACHE_TTL_MS`
abbrev pub counts_cache_ttl_ms : ℕ
counts_cache_ttl_ms = 10000

-- `updatedAt && now - updatedAt < COUNTS_CACHE_TTL_MS`
unfoldable pub is_fresh : CountsCache → ℕ → Bool
is_fresh cache now = not (cache.updated_at == 0) && ltb (now - cache.updated_at) counts_cache_ttl_ms

unfoldable pub run_counts_query : ℕ → ℕ → Option Period → TransactionCounts
run_counts_query day week (some last_24h) = record { last_24h = some day; last_7d = none }
run_counts_query day week (some last_7d) = record { last_24h = none; last_7d = some week }
run_counts_query day week none = record { last_24h = some day; last_7d = some week }

-- The answer from a fresh cache.
unfoldable pub cached_counts : CountsCache → Option Period → TransactionCounts
cached_counts cache (some last_24h) = record { last_24h = cache.last_24h; last_7d = none }
cached_counts cache (some last_7d) = record { last_24h = none; last_7d = cache.last_7d }
cached_counts cache none = record { last_24h = cache.last_24h; last_7d = cache.last_7d }

module _ (day week : ℕ → ℕ) where
  -- The cache that a request leaves, and its answer.
  unfoldable pub get_transaction_counts_recent :
      ℕ → ℕ → Option Period → CountsCache → CountsCache × TransactionCounts
  unfolding run_counts_query cached_counts
  get_transaction_counts_recent now later period cache =
      let result = run_counts_query (day later) (week later) period in
      if is_fresh cache now then (cache, cached_counts cache period) else (
        record { last_24h = result.last_24h; last_7d = result.last_7d; updated_at = later },
        result,
      )
