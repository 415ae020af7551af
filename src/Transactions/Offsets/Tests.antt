-- ===== src/Transactions/Offsets/Tests.antt =====
-- The single lookups and the listings by offset on a small database.
use Prim.Native.String.{String}
use safrochain_indexer.Prelude.{
  ℕ, Option, none, some, Bool, true, false, List, [], ◌∷◌, map, keep, all, str_eq, eq_iff, ◌≡◌, ◌↔◌,
  refl, ap, sym, ◌∙◌, some_inj, ◌||◌, if◌then◌else◌,
}
use safrochain_indexer.Prelude.Sets.{includes}
use safrochain_indexer.Prelude.Outcomes.{ok, not_found}
use safrochain_indexer.Json.Value.{null, obj, end}
use safrochain_indexer.Messages.Registry.{
  add_message_type, add_message_types, message_types, lookup_type, get_message_type_info,
}
use safrochain_indexer.Messages.Parser.{parse_unknown, parse_message}
use safrochain_indexer.Paging.Params.{ConfigService}
use safrochain_indexer.Paging.Query.{SortOrder, cut, skip, once}
use safrochain_indexer.Entities.{Transaction, Message}
use safrochain_indexer.Transactions.Response.{
  TransactionResponse, message_views, modules_of, transaction_response,
}
use safrochain_indexer.Transactions.Response.Laws.{Summarises}
use safrochain_indexer.Transactions.Filters.{TransactionRow, TransactionSortBy}
use safrochain_indexer.Transactions.Listing.Advanced.{same_transaction}
use safrochain_indexer.Transactions.Single.{
  TransactionSource, get_transaction_by_hash, statistics_of,
}
use safrochain_indexer.Transactions.Single.Laws.{
  Finds, get_transaction_by_hash_lem, SameFacts, statistics_of-SameFacts,
}
use safrochain_indexer.Transactions.Offsets.{OffsetRows, offset_holds}
use mathlib.Core.List.{Permᴰ}

abbrev tx_at : String → ℕ → Transaction
tx_at hash height = record {
  hash = hash;
  height = height;
  success = true;
  messages = none;
  memo = none;
  signer_infos = null;
  fee = null;
  gas_wanted = 9;
  gas_used = 7;
  logs = null;
  partition_id = 0;
  block = none;
}

abbrev message_of : ℕ → String → Message
message_of index account = record {
  transaction_hash = "h1";
  index = index;
  type_name = "/x";
  value = obj end;
  involved_accounts_addresses = account ∷ [];
  partition_id = 0;
  height = 5;
}

abbrev ordered : List Message
ordered = message_of 0 "ann" ∷ message_of 1 "bob" ∷ []

abbrev any_order : List Message
any_order = message_of 1 "bob" ∷ message_of 0 "ann" ∷ []

abbrev table : List Transaction
table = tx_at "h1" 5 ∷ []

abbrev find_one : String → Option Transaction
find_one hash = if str_eq "h1" hash then some (tx_at "h1" 5) else none

abbrev source : TransactionSource
source = record { find_one = find_one; find_ordered = λ h. ordered; find_any = λ h. any_order }

find_hash :
    (b : Bool) (h : String) (tx : Transaction)
    → (b ≡ true → "h1" ≡ h)
    → (if b then some (tx_at "h1" 5) else none) ≡ some tx
    → tx.hash ≡ h
find_hash true h tx same e = ap (λ t. t.hash) (sym (some_inj e)) ∙ same refl
find_hash false h tx same e = absurd (cc)

find_missing :
    (b : Bool) → ((if b then some (tx_at "h1" 5) else none) ≡ none) ↔ ((b || false) ≡ false)
find_missing true = (λ e. absurd (cc), λ e. absurd (cc))
find_missing false = (λ e. refl, λ e. refl)

finds : Finds table find_one
unfolding includes
finds = record {
  found_hash = λ h tx e. find_hash (str_eq "h1" h) h tx (λ k. (eq_iff "h1" h).0 k) e;
  none_missing = λ h. find_missing (str_eq "h1" h);
}

get_transaction_by_hash_lem_example :
    ((get_transaction_by_hash source 3 "h1" ≡ not_found "h1")
      ↔ (includes (map (λ tx. tx.hash) table) "h1" ≡ false))
    × ((r : TransactionResponse)
        → get_transaction_by_hash source 3 "h1" ≡ ok r
        → (r.hash ≡ "h1") × Summarises r)
get_transaction_by_hash_lem_example = get_transaction_by_hash_lem table source finds 3 "h1"

response_made : (r : TransactionResponse) × (transaction_response 3 (tx_at "h1" 5) ordered ≡ some r)
unfolding transaction_response message_views modules_of parse_message get_message_type_info
    lookup_type message_types add_message_types add_message_type parse_unknown
response_made = (_, refl)

statistics_of-SameFacts_example : SameFacts (statistics_of (tx_at "h1" 5) any_order) response_made.0
statistics_of-SameFacts_example =
    statistics_of-SameFacts 3 (tx_at "h1" 5) ordered any_order response_made.0
      (unfold message_views in refl) (Permᴰ.swap refl refl) response_made.1

abbrev row_at : String → ℕ → TransactionRow
row_at hash height = record {
  transaction = tx_at hash height;
  messages = ordered;
  signer_text = "";
}

abbrev sorted : TransactionSortBy → SortOrder → List TransactionRow
sorted by order = row_at "h1" 7 ∷ row_at "h2" 5 ∷ row_at "h3" 5 ∷ row_at "h4" 1 ∷ []

abbrev get_many : OffsetRows
get_many q = cut q.limit (
    skip q.offset
      (keep (λ r. all (λ c. offset_holds c r) q.conditions) (sorted q.order_by q.order)))

abbrev get_once : OffsetRows
get_once q = once same_transaction (
    cut q.limit (
      skip q.offset
        (keep (λ r. all (λ c. offset_holds c r) q.conditions) (sorted q.order_by q.order))))

abbrev config : ConfigService
config = record { default_page_size = some 20; max_page_size = some 100 }
