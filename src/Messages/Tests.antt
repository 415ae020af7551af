-- ===== src/Messages/Tests.antt =====
-- The parser and the registry on concrete messages.
use safrochain_indexer.Prelude.{Option, String, none, some, true, [], ◌∷◌, ◌≡◌, ◌↔◌, refl}
use safrochain_indexer.Prelude.Sets.{includes}
use safrochain_indexer.Json.Value.{
  Value, str, arr, obj, nil, cons, end, field, get, get_field, Fields, null,
}
use safrochain_indexer.Paging.Query.{once}
use safrochain_indexer.Messages.Involved.{
  multi_send, fields_in, involved_fields, push_fields, multi_send_addresses, same_value,
  extract_involved_addresses,
}
use safrochain_indexer.Messages.Involved.Roles.{takes_part}
use safrochain_indexer.Messages.Involved.Laws.{has_text, extract_involved_addresses_iff}
use safrochain_indexer.Messages.Types.{ParsedMessage}
use safrochain_indexer.Messages.Registry.{
  add_message_type, add_message_types, message_types, lookup_type, get_message_type_info,
}
use safrochain_indexer.Messages.Registry.Entries.{msg_send}
use safrochain_indexer.Messages.Names.{
  split_dots, strip_start, remove_first, extract_label_from_type,
}
use safrochain_indexer.Messages.Parser.{prop, extract_amount, parse_known, parse_message}
use safrochain_indexer.Prelude.{ℕ, Bool, false, List, all, keep, All, arith}
use safrochain_indexer.Prelude.Int.{pos}
use safrochain_indexer.Paging.Params.{ConfigService}
use safrochain_indexer.Paging.Query.{SortOrder, cut, skip}
use safrochain_indexer.Paging.Cursor.{follow}
use safrochain_indexer.Paging.Cursor.Sublists.{Sublist, has_height}
use safrochain_indexer.DateFilters.Calendar.{Clock}
use safrochain_indexer.DateFilters.Conditions.{
  DateFilter, apply_date_filters, range_conditions, part_conditions, set_conditions,
  season_conditions, range_list_conditions,
}
use safrochain_indexer.Entities.{Message}
use safrochain_indexer.Messages.Listing.{
  request_conditions, MessageList, MessageCondition, MessageColumn, Messages, type_is,
  message_filters, message_holds, modules_types,
}
use safrochain_indexer.Messages.Listing.Laws.{IsWanted, request_conditions_iff}
use safrochain_indexer.Messages.Listing.Reads.{listed, serve_request, get_messages-Reads}

abbrev send_name : String
send_name = "cosmos.bank.v1beta1.MsgSend"

send_found : get_message_type_info send_name ≡ some msg_send
unfolding get_message_type_info lookup_type message_types add_message_types add_message_type
send_found = refl

label_of_send : extract_label_from_type "cosmos.bank.v1beta1.MsgSend" ≡ "v1beta1"
unfolding extract_label_from_type split_dots remove_first strip_start
label_of_send = refl

abbrev coins : Value
coins = arr (cons (obj (field "denom" (str "usaf") (field "amount" (str "5") end))) nil)

abbrev body : Value
body = obj (field "amount" coins end)

abbrev parsed_send : ParsedMessage
parsed_send = record {
  type_name = send_name;
  module_name = "bank";
  label = "Send";
  value = body;
  involved_addresses = "a" ∷ [];
  amount = coins;
  description = msg_send.description;
  category = none;
}

send_parsed : parse_message send_name body ("a" ∷ []) ≡ some parsed_send
unfolding parse_message parse_known extract_amount prop get get_field get_message_type_info
    lookup_type message_types add_message_types add_message_type
send_parsed = refl

abbrev delegated : Value
delegated = obj (field "amount" (obj (field "denom" (str "usaf") end)) end)

delegate_amount :
    extract_amount delegated "cosmos.staking.v1beta1.MsgDelegate"
    ≡ some (arr (cons (obj (field "denom" (str "usaf") end)) nil))
unfolding extract_amount prop get get_field includes
delegate_amount = refl

-- One account that stands in two properties.
abbrev allowance : Fields
allowance = field "granter" (str "ann") (field "grantee" (str "ann") (field "memo" (str "bob") end))

allowance_addresses :
    extract_involved_addresses (obj allowance) "cosmos.feegrant.v1beta1.MsgGrantAllowance"
    ≡ some (str "ann" ∷ [])
unfolding extract_involved_addresses push_fields involved_fields fields_in prop get get_field once
    same_value
allowance_addresses = refl

extract_involved_addresses_iff_example :
    (has_text "ann" (str "ann" ∷ []) ≡ true)
    ↔ (takes_part "ann" "cosmos.feegrant.v1beta1.MsgGrantAllowance" allowance ≡ true)
extract_involved_addresses_iff_example =
    extract_involved_addresses_iff allowance "cosmos.feegrant.v1beta1.MsgGrantAllowance" "ann"
      (str "ann" ∷ []) refl allowance_addresses

no_inputs_throw : extract_involved_addresses null multi_send ≡ none
unfolding extract_involved_addresses multi_send_addresses prop
no_inputs_throw = refl

abbrev undated : DateFilter
undated = record {
  date_from = none;
  date_to = none;
  date_exact = none;
  year = none;
  month = none;
  day = none;
  day_of_week = none;
  hour = none;
  minute = none;
  second = none;
  time_from = none;
  time_to = none;
  relative_value = none;
  relative_unit = none;
  business_days_only = false;
  weekdays = none;
  months = none;
  years = none;
  quarters = none;
  season = none;
  fiscal_year = none;
  fiscal_quarter = none;
  leap_years_only = false;
  custom_ranges = none;
  date_offset = none;
  valid_dates_only = false;
}

abbrev clock : Clock
clock = record {
  now = pos 9;
  parse = λ s. none;
  start_of_day = λ t. t;
  end_of_day = λ t. t;
  set_back = λ part n t. t;
  add_days = λ d t. t;
  midnight = λ y m d. pos 0;
}

no_dates : apply_date_filters clock undated ≡ []
unfolding apply_date_filters range_conditions part_conditions set_conditions season_conditions
    range_list_conditions
no_dates = refl

abbrev bank_request : MessageList
bank_request = record {
  page = record { page = none; limit = some (pos 1) };
  cursor = none;
  type_name = none;
  module_name = some "bank";
  category = none;
  address = some "ann";
  types = [];
  modules = [];
  height_from = some 2;
  height_to = none;
  denom = none;
  amount_min = none;
  amount_max = none;
  dates = undated;
}

abbrev any_request : MessageList
any_request = record bank_request { module_name = none }

abbrev stored : String → ℕ → Message
stored type_name height = record {
  transaction_hash = "h";
  index = 0;
  type_name = type_name;
  value = obj end;
  involved_accounts_addresses = "ann" ∷ [];
  partition_id = 0;
  height = height;
}

abbrev nothing_matches : String → Message → Bool
nothing_matches p m = false

request_conditions_iff_example :
    ((all
          (λ c. message_holds nothing_matches nothing_matches c (stored send_name 5))
          (request_conditions clock bank_request)
        ≡ true)
      ↔ (IsWanted nothing_matches nothing_matches bank_request (stored send_name 5)
          × (apply_date_filters clock bank_request.dates ≡ [])))
    × ((lowest highest : Option String)
        → request_conditions clock
            (record bank_request { amount_min = lowest; amount_max = highest })
          ≡ request_conditions clock bank_request)
request_conditions_iff_example =
    request_conditions_iff nothing_matches nothing_matches bank_request (stored send_name 5) clock

abbrev stored_messages : MessageColumn → SortOrder → List Message
stored_messages by order = stored send_name 5 ∷ stored "/x" 5 ∷ stored send_name 4 ∷ []

abbrev get_stored : Messages
get_stored q = cut q.limit (
    skip q.offset (
      keep (λ m. all (λ c. message_holds nothing_matches nothing_matches c m) q.conditions)
        (stored_messages q.order_by q.order)))

abbrev sent_messages : List MessageCondition
sent_messages = type_is send_name ∷ []

abbrev config : ConfigService
config = record { default_page_size = some 20; max_page_size = some 100 }

get_messages-Reads_example :
    (got : List Message) × (follow
        (λ m. m.height)
        (serve_request nothing_matches nothing_matches stored_messages get_stored
          (λ q. refl)
          clock
          config
          any_request)
        9
        none
      ≡ some got)
    × All (IsWanted nothing_matches nothing_matches any_request) got
    × Sublist got (
        listed nothing_matches nothing_matches stored_messages get_stored
          (λ q. refl)
          (message_filters any_request))
    × ((h : ℕ)
        → has_height
            (λ m. m.height)
            h
            (listed nothing_matches nothing_matches stored_messages get_stored
              (λ q. refl)
              (message_filters any_request))
          ≡ true
        → has_height (λ m. m.height) h got ≡ true)
get_messages-Reads_example =
    get_messages-Reads nothing_matches nothing_matches stored_messages get_stored (λ q. refl) clock
      config any_request 9
      (
        omega arith,
        (omega arith, (omega arith, tt)),
        (omega arith, (omega arith, tt), (omega arith, tt, tt)),
      )
      (omega arith) no_dates
      (unfold message_filters modules_types message_holds includes in omega arith)
