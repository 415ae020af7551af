-- ===== src/Transactions/Tests.antt =====
-- The transaction service on a small database.
use safrochain_indexer.Prelude.{
  ℕ, ◌+◌, ◌≤◌, ◌<◌, String, Option, none, some, true, false, List, [], ◌∷◌, ◌≡◌, ◌↔◌, refl, arith,
  keep, map, str_eq, All, length, all,
}
use safrochain_indexer.Prelude.Int.{ℤ, pos}
use safrochain_indexer.Prelude.Sets.{includes}
use safrochain_indexer.Json.Value.{null}
use safrochain_indexer.Messages.Registry.{
  add_message_type, add_message_types, message_types, lookup_type, get_message_type_info,
}
use safrochain_indexer.Messages.Parser.{parse_unknown, parse_message}
use safrochain_indexer.Paging.Params.{
  ConfigService, clamp_limit, normalize_page_pagination, normalize_offset_pagination,
}
use safrochain_indexer.Paging.Query.{SortOrder, cut, skip, once}
use safrochain_indexer.Paging.Cursor.{cursor_set}
use safrochain_indexer.Entities.{Transaction, Message}
use safrochain_indexer.Transactions.Response.{
  TransactionResponse, message_views, modules_of, transaction_response,
}
use safrochain_indexer.Transactions.Response.Laws.{Summarises, transaction_response-Summarises}
use safrochain_indexer.Transactions.Preload.{process_page}
use safrochain_indexer.Transactions.Preload.Laws.{of_hash, process_page-eq}
use safrochain_indexer.Transactions.Counts.{
  last_24h, last_7d, initial_cache, is_fresh, get_transaction_counts_recent,
}
use safrochain_indexer.Transactions.Counts.Laws.{
  started, IsRecent, get_transaction_counts_recent-IsRecent, cached_after_24h,
}
use safrochain_indexer.Transactions.Filters.{
  TransactionRow, TransactionSortBy, TransactionFilter, holds, exists_message,
  build_transaction_query,
}
use safrochain_indexer.Transactions.Filters.Laws.{Matches, build_transaction_query_lem}
use safrochain_indexer.Transactions.Listing.{
  TransactionList, AdvancedPaging, Rows, height_of, list_filters, get_transactions_advanced,
}
use safrochain_indexer.Transactions.Listing.Advanced.{
  same_transaction, get_transactions_advanced_lem, get_transactions_advanced_repeated,
}
use safrochain_indexer.Transactions.Listing.Laws.{serve_transactions, get_transactions_tied}

abbrev tx_at : String → ℕ → Transaction
tx_at hash height = record {
  hash = hash;
  height = height;
  success = true;
  messages = none;
  memo = none;
  signer_infos = null;
  fee = null;
  gas_wanted = 9;
  gas_used = 7;
  logs = null;
  partition_id = 0;
  block = none;
}

abbrev message_of : String → ℕ → Message
message_of hash index = record {
  transaction_hash = hash;
  index = index;
  type_name = "/x";
  value = null;
  involved_accounts_addresses = "bob" ∷ "bob" ∷ [];
  partition_id = 0;
  height = 5;
}

abbrev messages : List Message
messages = message_of "h1" 0 ∷ message_of "h2" 0 ∷ message_of "h1" 1 ∷ []

-- `find` with `In(hashes)`, and for one hash.
abbrev find_in : List String → List Message
find_in hs = keep (λ m. includes hs m.transaction_hash) messages

abbrev find_one : String → List Message
find_one h = keep (of_hash h) messages

process_page-eq_example :
    process_page find_in find_one 3 (tx_at "h1" 5 ∷ tx_at "h2" 5 ∷ [])
    ≡ map (λ tx. transaction_response 3 tx (find_one tx.hash)) (tx_at "h1" 5 ∷ tx_at "h2" 5 ∷ [])
process_page-eq_example =
    process_page-eq messages find_in find_one (λ hs. refl) (λ h. refl) 3
      (tx_at "h1" 5 ∷ tx_at "h2" 5 ∷ [])

abbrev response : Option TransactionResponse
response = transaction_response 3 (tx_at "h1" 5) (find_one "h1")

response_made : (r : TransactionResponse) × (response ≡ some r)
unfolding transaction_response message_views modules_of parse_message get_message_type_info
    lookup_type message_types add_message_types add_message_type parse_unknown
response_made = (_, refl)

transaction_response-Summarises_example : Summarises response_made.0
transaction_response-Summarises_example =
    transaction_response-Summarises 3 (tx_at "h1" 5) (find_one "h1") response_made.0 response_made.1

-- One transaction a second in the day, and two in the week.
abbrev day : ℕ → ℕ
day t = t

abbrev week : ℕ → ℕ
week t = t + t

get_transaction_counts_recent-IsRecent_example :
    (let answer = (get_transaction_counts_recent day week 5 6 none initial_cache).1 in
      ((c : ℕ) → answer.last_24h ≡ some c → IsRecent day week day 5 6 c)
      × ((c : ℕ) → answer.last_7d ≡ some c → IsRecent day week week 5 6 c))
get_transaction_counts_recent-IsRecent_example =
    get_transaction_counts_recent-IsRecent day week 5 6 none initial_cache started

cached_after_24h_example :
    (let filled = (get_transaction_counts_recent day week 5 6 (some last_24h) initial_cache).0 in
      (get_transaction_counts_recent day week 100 101 (some last_7d) filled).1
      ≡ record { last_24h = none; last_7d = none })
cached_after_24h_example =
    cached_after_24h day week 5 6 100 101 initial_cache (unfold is_fresh in refl) (omega arith)
      (omega arith)

abbrev row_at : String → ℕ → TransactionRow
row_at hash height = record {
  transaction = tx_at hash height;
  messages = find_one hash;
  signer_text = "";
}

abbrev filter : TransactionFilter
filter = record {
  success = some true;
  min_height = some 2;
  max_height = none;
  min_gas_used = none;
  max_gas_used = some 8;
  min_gas_wanted = none;
  max_gas_wanted = none;
  min_fee_amount = none;
  max_fee_amount = none;
  fee_denom = none;
  memo = none;
  signer = none;
  message_types = "/x" ∷ [];
  addresses = [];
  validator = none;
  date_from = none;
  date_to = none;
}

build_transaction_query_lem_example :
    ((all (λ c. holds str_eq c (row_at "h1" 5)) (build_transaction_query filter) ≡ true)
      ↔ Matches str_eq filter (row_at "h1" 5))
    × ((lowest highest denom : Option String)
        → build_transaction_query
            (record filter { min_fee_amount = lowest; max_fee_amount = highest; fee_denom = denom })
          ≡ build_transaction_query filter)
build_transaction_query_lem_example = build_transaction_query_lem str_eq filter (row_at "h1" 5)

-- Three transactions, the newest two of one block.
abbrev rows : List TransactionRow
rows = row_at "h1" 5 ∷ row_at "h2" 5 ∷ row_at "h3" 4 ∷ []

abbrev sorted : TransactionSortBy → SortOrder → List TransactionRow
sorted by order = rows

abbrev get_many : Rows
get_many q = cut q.limit (
    skip q.offset
      (keep (λ r. all (λ c. holds str_eq c r) q.conditions) (sorted q.order_by q.order)))

abbrev config : ConfigService
config = record { default_page_size = some 20; max_page_size = some 100 }

abbrev one_by_one : TransactionList
one_by_one = record {
  address = none;
  message_type = none;
  success = some true;
  page = record { page = none; limit = some (pos 1) };
  cursor = none;
}

get_transactions_tied_example :
    ((serve_transactions get_many config one_by_one none).rows ≡ row_at "h1" 5 ∷ [])
    × ((serve_transactions get_many config one_by_one none).next_cursor ≡ some 5)
    × All (λ r. height_of r < 5) (serve_transactions get_many config one_by_one (some 5)).rows
get_transactions_tied_example =
    get_transactions_tied str_eq sorted get_many (λ q. refl) config one_by_one (row_at "h1" 5 ∷ [])
      (row_at "h3" 4 ∷ []) (row_at "h1" 5) (row_at "h2" 5) (unfold list_filters holds in refl)
      (unfold normalize_page_pagination clamp_limit in refl) refl refl (omega arith)

-- The join with the message table, which repeats the transaction of two messages.
abbrev joined_rows : TransactionSortBy → SortOrder → List TransactionRow
joined_rows by order = row_at "h1" 5 ∷ row_at "h1" 5 ∷ row_at "h2" 5 ∷ row_at "h3" 4 ∷ []

abbrev get_joined : Rows
get_joined q = once same_transaction (
    cut q.limit (
      skip q.offset
        (keep (λ r. all (λ c. holds str_eq c r) q.conditions) (joined_rows q.order_by q.order))))

abbrev two_at : ℤ → AdvancedPaging
two_at offset = record {
  window = record { limit = some (pos 2); offset = some offset };
  cursor = none;
  sort_by = none;
  order = none;
}

get_transactions_advanced_lem_example :
    (let page = get_transactions_advanced get_joined config filter (two_at (pos 1)) in
      (length page.rows ≤ 100)
      × All (Matches str_eq filter) page.rows
      × ((lowest highest denom : Option String)
          → get_transactions_advanced get_joined config
              (record filter {
                min_fee_amount = lowest;
                max_fee_amount = highest;
                fee_denom = denom;
              })
              (two_at (pos 1))
            ≡ page))
get_transactions_advanced_lem_example =
    get_transactions_advanced_lem str_eq joined_rows get_joined (λ q. refl) config filter
      (two_at (pos 1)) (omega arith)

get_transactions_advanced_repeated_example :
    (let page = get_transactions_advanced get_joined config filter (two_at (pos 0)) in
      (page.rows ≡ row_at "h1" 5 ∷ [])
      × (page.meta.next_cursor ≡ none)
      × (page.meta.has_next ≡ false))
get_transactions_advanced_repeated_example =
    get_transactions_advanced_repeated str_eq joined_rows get_joined (λ q. refl) config filter
      (two_at (pos 0)) (row_at "h1" 5) (row_at "h1" 5 ∷ []) (row_at "h2" 5 ∷ [])
      (unfold cursor_set in refl)
      (unfold build_transaction_query holds exists_message includes normalize_offset_pagination
          clamp_limit in
        refl)
      (refl, tt) (unfold normalize_offset_pagination clamp_limit in refl)
      (unfold normalize_offset_pagination clamp_limit in omega arith)
