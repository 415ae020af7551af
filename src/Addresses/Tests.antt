-- ===== src/Addresses/Tests.antt =====
-- The address service on a transfer of two denominations.
use Prim.Native.String.{String}
use safrochain_indexer.Prelude.{
  Option, ℕ, none, some, Bool, true, false, List, [], ◌∷◌, map, keep, all, All, str_eq, ◌≡◌, ◌↔◌,
  refl, arith,
}
use safrochain_indexer.Prelude.Int.{pos, ◌+ℤ◌}
use safrochain_indexer.Prelude.Sets.{includes}
use safrochain_indexer.Json.Value.{
  Value, null, str, arr, obj, nil, cons, field, end, get, get_field,
}
use safrochain_indexer.Json.Text.{includes_codes}
use safrochain_indexer.Messages.Registry.{
  add_message_type, add_message_types, message_types, lookup_type, get_message_type_info,
}
use safrochain_indexer.Messages.Parser.{parse_unknown, parse_message}
use safrochain_indexer.Amounts.{Coin}
use safrochain_indexer.Amounts.Decimal.{decimal, parse_int, print_int}
use safrochain_indexer.Blocks.Fees.{add_amounts, add_fee}
use safrochain_indexer.Blocks.Fees.Totality.{IsAmount}
use safrochain_indexer.Entities.{Transaction, Message}
use safrochain_indexer.Paging.Params.{
  ConfigService, normalize_offset_pagination, normalize_page_pagination,
}
use safrochain_indexer.Paging.Query.{SortOrder, cut, skip}
use safrochain_indexer.Paging.Cursor.{follow}
use safrochain_indexer.Paging.Cursor.Sublists.{Sublist, has_height}
use safrochain_indexer.Transactions.Filters.{
  in_partition, TransactionRow, TransactionSortBy, exists_message,
}
use safrochain_indexer.Transactions.Listing.{height_of}
use safrochain_indexer.Transactions.Response.{modules_of, message_type, table_message}
use safrochain_indexer.Addresses.Response.{
  is_sent, is_received, sent, received, overall_direction, both, sent, received, AddressMessage,
  Includes, AddressResponse, address_message, address_response, message_direction, message_coin,
  coin_of, bank_coin, bank_direction, in_type, coins_of, total_amount, group_amounts, group_amount,
  with_zero, overall_direction,
}
use safrochain_indexer.Addresses.Response.Totals.{IsTotal}
use safrochain_indexer.Addresses.Response.Directions.{
  any, overall_direction_iff, IsSentBy, IsReceivedBy, message_direction_iff,
  message_direction-includes,
}
use safrochain_indexer.Addresses.Response.Laws.{
  processed, address_response-IsTotal, address_response_total,
}
use safrochain_indexer.Addresses.Filters.{
  AddressTransactionFilter, address_holds, build_address_transaction_query, column_conditions,
  message_conditions, direction_condition,
}
use safrochain_indexer.Addresses.Messages.{address_views, address_json_message}
use safrochain_indexer.Addresses.Filters.Laws.{
  MatchesColumns, MatchesMessages, build_address_transaction_query_lem,
}
use safrochain_indexer.Addresses.Summary.{
  AddressRows, get_address_transactions, get_recent_transactions,
}
use safrochain_indexer.Addresses.Summary.Laws.{AllSame, get_recent_transactions-AllSame}
use safrochain_indexer.Addresses.Listing.Laws.{
  IsWanted, wanted_rows, serve_address, get_address_rows-Reads,
}

abbrev coin : String → String → Value
coin denom amount = obj (field "denom" (str denom) (field "amount" (str amount) end))

abbrev transfer : String → String → Value
transfer from to = obj (
    field "from_address" (str from)
      (field "to_address" (str to) (field "amount" (arr (cons (coin "usaf" "5") nil)) end)))

abbrev delegation : Value
delegation = obj (field "delegator_address" (str "ann") (field "amount" (coin "usaf" "7") end))

abbrev message_of : ℕ → String → Value → Message
message_of index type_name value = record {
  transaction_hash = "h1";
  index = index;
  type_name = type_name;
  value = value;
  involved_accounts_addresses = "ann" ∷ "bob" ∷ [];
  partition_id = 0;
  height = 5;
}

abbrev payment : Message
payment = message_of 0 "/x.bank" (transfer "ann" "bob")

abbrev delegated : Message
delegated = message_of 1 "/x.staking" delegation

abbrev tx_at : String → ℕ → Transaction
tx_at hash height = record {
  hash = hash;
  height = height;
  success = true;
  messages = none;
  memo = none;
  signer_infos = null;
  fee = null;
  gas_wanted = 9;
  gas_used = 7;
  logs = null;
  partition_id = 0;
  block = none;
}

abbrev both_messages : List Message
both_messages = payment ∷ delegated ∷ []

abbrev shown : Includes
shown = record { include_messages = true; include_logs = false }

modules_found :
    (modules : List String) × (modules_of (address_views (tx_at "h1" 5) both_messages)
      ≡ some modules)
unfolding address_views modules_of parse_message get_message_type_info lookup_type message_types
    add_message_types add_message_type parse_unknown
modules_found = (_, refl)

-- What the two messages carry for ann.
abbrev ann_coins : List Coin
ann_coins = coins_of (processed decimal 3 shown "ann" (tx_at "h1" 5) both_messages)

ann_amounts : All (IsAmount decimal) ann_coins
unfolding address_views address_message message_coin in_type bank_coin coin_of get get_field
    includes_codes parse_int
ann_amounts = ((pos 5, refl), ((pos 7, refl), tt))

address_response_total_example :
    (r : AddressResponse) × (address_response decimal 3 shown "ann" (tx_at "h1" 5) both_messages
      ≡ some r)
address_response_total_example =
    address_response_total decimal 3 shown "ann" (tx_at "h1" 5) both_messages modules_found.0
      modules_found.1 ann_amounts

answered :
    (r : AddressResponse) × (address_response decimal 3 shown "ann" (tx_at "h1" 5) both_messages
      ≡ some r)
answered =
    address_response_total decimal 3 shown "ann" (tx_at "h1" 5) both_messages modules_found.0
      modules_found.1 ann_amounts

address_response-IsTotal_example :
    (answered.0.direction
      ≡ overall_direction (processed decimal 3 shown "ann" (tx_at "h1" 5) both_messages))
    × IsTotal decimal ann_coins answered.0.total
address_response-IsTotal_example =
    address_response-IsTotal decimal 3 shown "ann" (tx_at "h1" 5) both_messages answered.0
      answered.1

-- The total of the transfer and the delegation.
ann_total : total_amount decimal ann_coins ≡ some (record { denom = "usaf"; amount = "12" })
unfolding address_views address_message message_coin in_type bank_coin coin_of get get_field
    includes_codes total_amount group_amounts group_amount with_zero add_fee add_amounts includes
    parse_int print_int ◌+ℤ◌
ann_total = refl

abbrev for_ann : List AddressMessage
for_ann = map (λ m. address_message "ann" (table_message m)) both_messages

message_direction_iff_example :
    ((message_direction "bob" (table_message payment) ≡ some sent)
      ↔ IsSentBy "bob" (table_message payment))
    × ((message_direction "bob" (table_message payment) ≡ some received)
        ↔ IsReceivedBy "bob" (table_message payment))
message_direction_iff_example = message_direction_iff "bob" (table_message payment)

overall_direction_iff_example :
    ((overall_direction for_ann ≡ sent)
      ↔ ((any is_sent for_ann ≡ true) × (any is_received for_ann ≡ false)))
    × ((overall_direction for_ann ≡ received)
        ↔ ((any is_sent for_ann ≡ false) × (any is_received for_ann ≡ true)))
    × ((overall_direction for_ann ≡ both) ↔ (any is_sent for_ann ≡ any is_received for_ann))
overall_direction_iff_example = overall_direction_iff for_ann

abbrev typed_transfer : Value
typed_transfer = obj (field "type" (str "bank") (field "to_address" (str "bob") end))

bob_receives : message_direction "bob" (address_json_message 0 typed_transfer) ≡ some received
unfolding message_direction address_json_message message_type in_type bank_direction get get_field
    includes_codes
bob_receives = refl

message_direction-includes_example :
    includes (address_json_message 0 typed_transfer).involved_addresses "bob" ≡ true
message_direction-includes_example =
    message_direction-includes "bob" 0 typed_transfer received bob_receives

abbrev row_at : String → ℕ → TransactionRow
row_at hash height = record {
  transaction = tx_at hash height;
  messages = both_messages;
  signer_text = "";
}

abbrev payment_row : TransactionRow
payment_row = record { transaction = tx_at "h1" 5; messages = payment ∷ []; signer_text = "" }

abbrev delegation_row : TransactionRow
delegation_row = record { transaction = tx_at "h1" 5; messages = delegated ∷ []; signer_text = "" }

abbrev no_text : Message → String
no_text m = ""

abbrev filter : AddressTransactionFilter
filter = record {
  success = some true;
  min_height = some 2;
  max_height = none;
  min_gas_used = none;
  max_gas_used = some 8;
  min_gas_wanted = none;
  max_gas_wanted = none;
  min_fee_amount = none;
  max_fee_amount = none;
  fee_denom = none;
  memo = none;
  message_types = "/x.bank" ∷ [];
  modules = [];
  direction = some sent;
  min_amount = none;
  max_amount = none;
  denom = none;
  date_from = none;
  date_to = none;
  search = none;
  sender_only = false;
  receiver_only = false;
  include_failed = true;
}

abbrev holds_for_ann : TransactionRow → Bool
holds_for_ann r =
    all (λ c. address_holds str_eq no_text str_eq c r)
      (build_address_transaction_query "ann" filter)

build_address_transaction_query_lem_example :
    ((holds_for_ann (row_at "h1" 5) ≡ true) ↔ (
      (exists_message
          (λ m. includes m.involved_accounts_addresses "ann")
          (in_partition (row_at "h1" 5))
        ≡ true)
      × MatchesColumns str_eq no_text str_eq "ann" filter (row_at "h1" 5)
      × MatchesMessages str_eq no_text str_eq "ann" filter (row_at "h1" 5)))
    × ((lowest_fee highest_fee fee_denom lowest highest denom : Option String) (failed : Bool)
        → build_address_transaction_query "ann" (record filter {
          min_fee_amount = lowest_fee;
          max_fee_amount = highest_fee;
          fee_denom = fee_denom;
          min_amount = lowest;
          max_amount = highest;
          denom = denom;
          include_failed = failed;
        })
          ≡ build_address_transaction_query "ann" filter)
    × (build_address_transaction_query "ann" (record filter { direction = some both })
        ≡ build_address_transaction_query "ann" (record filter { direction = none }))
build_address_transaction_query_lem_example =
    build_address_transaction_query_lem str_eq no_text str_eq "ann" filter (row_at "h1" 5)

-- Three transactions of ann, the newest two of one block.
abbrev sorted : TransactionSortBy → SortOrder → List TransactionRow
sorted by order = row_at "h1" 5 ∷ row_at "h2" 5 ∷ row_at "h3" 4 ∷ []

abbrev get_many : AddressRows
get_many q = cut q.limit (
    skip q.offset (
      keep (λ r. all (λ c. address_holds str_eq no_text str_eq c r) q.conditions)
        (sorted q.order_by q.order)))

abbrev config : ConfigService
config = record { default_page_size = some 20; max_page_size = some 100 }

get_recent_transactions-AllSame_example :
    AllSame
      (get_recent_transactions
        (λ v. "ann")
        get_many
        "ann"
        (normalize_page_pagination (record { page = none; limit = some (pos 2) }) config).limit)
      (get_address_transactions
        (λ v. "ann")
        get_many
        config
        "ann"
        (record { page = none; limit = some (pos 2) })
        none).rows
get_recent_transactions-AllSame_example =
    get_recent_transactions-AllSame (λ v. "ann") "ann" get_many config
      (record { page = none; limit = some (pos 2) })

get_address_rows-Reads_example :
    (got : List TransactionRow) × (follow height_of
        (serve_address str_eq no_text str_eq sorted get_many
          (λ q. refl)
          config
          "ann"
          filter
          (record { limit = some (pos 2); offset = none }))
        9
        none
      ≡ some got)
    × All (IsWanted str_eq no_text str_eq sorted get_many (λ q. refl) config "ann" filter) got
    × Sublist got
        (wanted_rows str_eq no_text str_eq sorted get_many (λ q. refl) config "ann" filter)
    × ((h : ℕ)
        → has_height height_of h
            (wanted_rows str_eq no_text str_eq sorted get_many (λ q. refl) config "ann" filter)
          ≡ true
        → has_height height_of h got ≡ true)
get_address_rows-Reads_example =
    get_address_rows-Reads str_eq no_text str_eq sorted get_many (λ q. refl) config "ann" filter
      (record { limit = some (pos 2); offset = none }) 9
      (
        omega arith,
        (omega arith, (omega arith, tt)),
        (omega arith, (omega arith, tt), (omega arith, tt, tt)),
      )
      (omega arith) (unfold normalize_offset_pagination in refl)
      (unfold build_address_transaction_query column_conditions message_conditions address_holds
          exists_message includes get get_field direction_condition in
        omega arith)
