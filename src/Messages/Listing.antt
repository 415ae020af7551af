-- ===== src/Messages/Listing.antt =====
-- modules/message/message.service.ts: the filters of `getMessages`, the listings by address, by type
-- and by search, and what they answer for each message. The entity has no column `timestamp`, on
-- which `getMessages` filters by date: a request that gives a date makes the database fail, so what
-- rows a query answers is stated for requests without one.
pub mod Laws
pub mod Reads
use Prim.Native.String
use safrochain_indexer.Prelude.{
  ℕ, ◌-◌, ◌*◌, String, Option, none, some, Bool, true, false, List, [], ◌∷◌, ◌++◌, ◌||◌, map, leb,
  ltb, str_eq, if◌then◌else◌, ◌>>=◌,
}
use safrochain_indexer.Prelude.Int.{negsuc}
use safrochain_indexer.Prelude.Sets.{includes}
use safrochain_indexer.Json.Value.{Value}
use safrochain_indexer.Messages.Types.{
  MessageCategory, MessageTypeInfo, MessageField, ParsedMessage,
}
use safrochain_indexer.Messages.Registry.{
  get_message_type_info, get_all_message_types, get_message_types_by_module,
  get_message_types_by_category,
}
use safrochain_indexer.Messages.Parser.{parse_message}
use safrochain_indexer.Paging.Params.{ConfigService, PagePaginationInput, normalize_page_pagination}
use safrochain_indexer.Paging.Meta.{PaginationMeta, build_pagination_meta}
use safrochain_indexer.Paging.Query.{SelectQuery, SortOrder, desc, when_given}
use safrochain_indexer.Paging.Cursor.{cursor_set, next_cursor}
use safrochain_indexer.DateFilters.Calendar.{Clock}
use safrochain_indexer.DateFilters.Conditions.{DateFilter, DateCondition, apply_date_filters}
use safrochain_indexer.Transactions.Filters.{given_text, given_list, containing}
use safrochain_indexer.Entities.{Message}
use mathlib.Core.Option

-- `MessageListDto`; no condition reads the two amounts.
pub record MessageList : Type 0 where
  pub page : PagePaginationInput
  pub cursor : Option ℕ
  pub type_name : Option String
  pub module_name : Option String
  pub category : Option MessageCategory
  pub address : Option String
  pub types : List String
  pub modules : List String
  pub height_from : Option ℕ
  pub height_to : Option ℕ
  pub denom : Option String
  pub amount_min : Option String
  pub amount_max : Option String
  pub dates : DateFilter

-- The texts handed to `andWhere`, one constructor for each, with their parameters.
pub data MessageCondition : Type 0 where
  type_is : String → MessageCondition
  type_in : List String → MessageCondition
  involves : String → MessageCondition
  height_ge height_le height_lt : ℕ → MessageCondition
  value_like : String → MessageCondition
  text_like : String → MessageCondition
  timestamp : DateCondition → MessageCondition

pub data MessageColumn : Type 0 where
  height : MessageColumn

abbrev pub names_of : List MessageTypeInfo → List String
names_of types = map (λ t. t.type_name) types

-- `getMessageTypesByModule(module).map((type) => type.type)`
unfoldable pub module_types : String → List String
module_types m = names_of (get_message_types_by_module m)

-- `modules.flatMap((module) => getMessageTypesByModule(module)).map((type) => type.type)`
unfoldable pub modules_types : List String → List String
modules_types [] = []
modules_types (m ∷ ms) = module_types m ++ modules_types ms

unfoldable pub category_types : MessageCategory → List String
category_types c = names_of (get_message_types_by_category c)

-- `if (types.length > 0) queryBuilder.andWhere("message.type IN (:...types)")`
abbrev pub if_types : List String → List MessageCondition
if_types types = when_given (given_list types) type_in

-- The three filters that go by the parser's registry.
abbrev pub module_condition : Option String → List MessageCondition
module_condition none = []
module_condition (some m) = if_types (module_types m)

abbrev pub category_condition : Option MessageCategory → List MessageCondition
category_condition none = []
category_condition (some c) = if_types (category_types c)

-- `%"denom":"${denom}"%`
abbrev pub denom_pattern : String → String
denom_pattern d = String.◌++◌ "%\"denom\":\"" (String.◌++◌ d "\"%")

-- The filters of `getMessages`, in front of the dates and of the cursor.
unfoldable pub message_filters : MessageList → List MessageCondition
message_filters f =
    when_given (given_text f.type_name) type_is
    ++ (if_types f.types
        ++ (module_condition (given_text f.module_name)
            ++ (if_types (modules_types f.modules)
                ++ (category_condition f.category
                    ++ (when_given (given_text f.address) involves
                        ++ (when_given f.height_from height_ge
                            ++ (when_given f.height_to height_le
                                ++ when_given (given_text f.denom)
                                    (λ d. value_like (denom_pattern d)))))))))

abbrev pub page_limit : ConfigService → PagePaginationInput → ℕ
page_limit config page = (normalize_page_pagination page config).limit

-- The query of the listings: `where` and `andWhere`, the cursor, newest first, limited.
unfoldable pub messages_query :
    List MessageCondition → ℕ → Option ℕ → SelectQuery MessageCondition MessageColumn
messages_query conditions limit cursor = record {
  conditions = conditions ++ when_given (cursor_set cursor) height_lt;
  order_by = MessageColumn.height;
  order = desc;
  limit = some limit;
  offset = none;
}

-- The rows of a listing and the meta that is made of them.
pub record MessageRows : Type 0 where
  pub rows : List Message
  pub meta : PaginationMeta

abbrev pub Messages : Type 0
Messages = SelectQuery MessageCondition MessageColumn → List Message

unfoldable pub list_messages : Messages → List MessageCondition → ℕ → Option ℕ → MessageRows
list_messages get_many conditions limit cursor =
    let rows = get_many (messages_query conditions limit cursor) in
    record {
      rows = rows;
      meta = build_pagination_meta 1 limit (negsuc 0) (next_cursor (λ m. m.height) limit rows) none;
    }

-- The conditions of `getMessages`: the filters and those of the dates.
unfoldable pub request_conditions : Clock → MessageList → List MessageCondition
request_conditions clock f = message_filters f ++ map timestamp (apply_date_filters clock f.dates)

unfoldable pub get_messages : Messages → Clock → ConfigService → MessageList → MessageRows
get_messages get_many clock config f =
    list_messages get_many (request_conditions clock f) (page_limit config f.page) f.cursor

-- The listings by one condition take `{ page, limit, cursor }`.
unfoldable pub get_messages_by_address :
    Messages → ConfigService → String → PagePaginationInput → Option ℕ → MessageRows
get_messages_by_address get_many config address page cursor =
    list_messages get_many (involves address ∷ []) (page_limit config page) cursor

unfoldable pub get_messages_by_type :
    Messages → ConfigService → String → PagePaginationInput → Option ℕ → MessageRows
get_messages_by_type get_many config type_name page cursor =
    list_messages get_many (type_is type_name ∷ []) (page_limit config page) cursor

unfoldable pub search_messages :
    Messages → ConfigService → String → PagePaginationInput → Option ℕ → MessageRows
search_messages get_many config query page cursor =
    list_messages get_many (text_like (containing query) ∷ []) (page_limit config page) cursor

-- `MessageResponseDto`, without the partition, which is copied.
pub record MessageResponse : Type 0 where
  pub transaction_hash : String
  pub index : ℕ
  pub type_name : String
  pub module_name : String
  pub label : String
  pub description : String
  pub category : Option MessageCategory
  pub value : Value
  pub amount : Value
  pub involved_addresses : List String
  pub height : ℕ

abbrev pub response_of : Message → ParsedMessage → MessageResponse
response_of m p = record {
  transaction_hash = m.transaction_hash;
  index = m.index;
  type_name = m.type_name;
  module_name = p.module_name;
  label = p.label;
  description = p.description;
  category = p.category;
  value = m.value;
  amount = p.amount;
  involved_addresses = m.involved_accounts_addresses;
  height = m.height;
}

-- The body of `messages.map(...)`; none if the parser throws.
unfoldable pub message_response : Message → Option MessageResponse
message_response m =
    Option.map (response_of m) (parse_message m.type_name m.value m.involved_accounts_addresses)

unfoldable pub message_responses : List Message → Option (List MessageResponse)
unfolding message_response
message_responses [] = some []
message_responses (m ∷ ms) = do r ← message_response m; rs ← message_responses ms; some (r ∷ rs)

-- `MessageTypeInfoDto`
pub record MessageTypeDto : Type 0 where
  pub info : MessageTypeInfo
  pub usage_count : ℕ

abbrev pub type_dto : MessageTypeInfo → MessageTypeDto
type_dto info = record { info = info; usage_count = 0 }

unfoldable pub get_message_types : List MessageTypeDto
get_message_types = map type_dto get_all_message_types

unfoldable pub message_type_dto : String → Option MessageTypeDto
message_type_dto type_name = Option.map type_dto (get_message_type_info type_name)

-- The two functions of PostgreSQL, `value::text LIKE pattern` and the three ILIKE of a search.
module _ (value_matches text_matches : String → Message → Bool) where
  -- What SQL makes of each condition on a row; a date's condition answers no row.
  unfoldable pub message_holds : MessageCondition → Message → Bool
  message_holds (type_is t) m = str_eq t m.type_name
  message_holds (type_in ts) m = includes ts m.type_name
  message_holds (involves a) m = includes m.involved_accounts_addresses a
  message_holds (height_ge n) m = leb n m.height
  message_holds (height_le n) m = leb m.height n
  message_holds (height_lt n) m = ltb m.height n
  message_holds (value_like p) m = value_matches p m
  message_holds (text_like p) m = text_matches p m
  message_holds (timestamp c) m = false

-- A page as it is returned: the answers for its messages, and its meta.
pub record MessagePage : Type 0 where
  pub answers : List MessageResponse
  pub meta : PaginationMeta

-- The rows of a listing made into its page; none if the parser throws for one of them.
unfoldable pub answer_messages : MessageRows → Option MessagePage
unfolding message_responses
answer_messages page =
    message_responses page.rows >>= λ answers. some (record { answers = answers; meta = page.meta })

unfoldable pub messages_page : Messages → Clock → ConfigService → MessageList → Option MessagePage
unfolding answer_messages get_messages
messages_page get_many clock config f = answer_messages (get_messages get_many clock config f)

unfoldable pub messages_by_address_page :
    Messages → ConfigService → String → PagePaginationInput → Option ℕ → Option MessagePage
unfolding answer_messages get_messages_by_address
messages_by_address_page get_many config address page cursor =
    answer_messages (get_messages_by_address get_many config address page cursor)

unfoldable pub messages_by_type_page :
    Messages → ConfigService → String → PagePaginationInput → Option ℕ → Option MessagePage
unfolding answer_messages get_messages_by_type
messages_by_type_page get_many config type_name page cursor =
    answer_messages (get_messages_by_type get_many config type_name page cursor)

unfoldable pub search_messages_page :
    Messages → ConfigService → String → PagePaginationInput → Option ℕ → Option MessagePage
unfolding answer_messages search_messages
search_messages_page get_many config query page cursor =
    answer_messages (search_messages get_many config query page cursor)
