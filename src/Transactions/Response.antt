-- ===== src/Transactions/Response.antt =====
-- `processTransactionResponse` and `calculateTotalFee`: what the API says of one transaction. A
-- message body is an object and its `@type` a string, as protobuf's JSON encoding has it; another
-- kind of `@type` counts as missing here. The clock's reading, for a transaction with no block, is
-- the argument `now`.
pub mod Laws
use safrochain_indexer.Prelude.{
  ℕ, ◌+◌, String, Option, none, some, Bool, true, false, not, ◌&&◌, List, [], ◌∷◌, map, length,
  if◌then◌else◌, ◌>>=◌, str_eq,
}
use safrochain_indexer.Prelude.Sets.{add_all, unique}
use safrochain_indexer.Json.Value.{
  Value, undefined, null, bool, num, str, date, arr, obj, Items, nil, get, truthy, or_else,
  items_list,
}
use safrochain_indexer.Json.Addresses.{extract_addresses_from_message}
use safrochain_indexer.Messages.Types.{ParsedMessage}
use safrochain_indexer.Messages.Parser.{parse_message}
use safrochain_indexer.Entities.{Block, Transaction, Message}
use mathlib.Core.Option

-- One entry of a response's `messages`.
pub record MessageView : Type 0 where
  pub type_name : String
  pub value : Value
  pub index : ℕ
  pub involved_addresses : List String

-- A non-empty string, none otherwise.
abbrev pub text_of : Value → Option String
text_of (str s) = if str_eq s "" then none else some s
text_of v = none

abbrev or_text : Option String → Option String → Option String
or_text none o = o
or_text (some s) o = some s

abbrev or_unknown : Option String → String
or_unknown none = "unknown"
or_unknown (some s) = s

-- `msg["@type"] || msg.type || "unknown"`
unfoldable pub message_type : Value → String
unfolding get
message_type msg = or_unknown (or_text (text_of (get "@type" msg)) (text_of (get "type" msg)))

unfoldable pub json_message : ℕ → Value → MessageView
json_message index msg = record {
  type_name = message_type msg;
  value = msg;
  index = index;
  involved_addresses = extract_addresses_from_message msg;
}

-- `transaction.messages.map((msg, index) => ...)`, from an index on.
unfoldable pub json_messages : ℕ → List Value → List MessageView
unfolding json_message
json_messages index [] = []
json_messages index (msg ∷ msgs) = json_message index msg ∷ json_messages (index + 1) msgs

unfoldable pub table_message : Message → MessageView
table_message m = record {
  type_name = m.type_name;
  value = m.value;
  index = m.index;
  involved_addresses = m.involved_accounts_addresses;
}

-- `transaction.messages && transaction.messages.length > 0`
abbrev pub has_json : Transaction → Bool
has_json tx = elim tx.messages [ some (msg ∷ msgs) ↦ true | _ ↦ false ]

abbrev pub json_of : Option (List Value) → List Value
json_of none = []
json_of (some msgs) = msgs

-- The JSON column's messages, or those of the message table where the column is empty.
unfoldable pub message_views : Transaction → List Message → List MessageView
unfolding json_messages table_message
message_views tx db_messages =
    if has_json tx then json_messages 0 (json_of tx.messages) else map table_message db_messages

-- `messages.forEach((m) => m.involved_addresses.forEach((a) => set.add(a)))`
unfoldable pub collect_addresses : List String → List MessageView → List String
unfolding add_all
collect_addresses set [] = set
collect_addresses set (m ∷ ms) = collect_addresses (add_all set m.involved_addresses) ms

-- `messages.map((m) => parseMessage(...).module)`; none if the parser throws.
unfoldable pub modules_of : List MessageView → Option (List String)
modules_of [] = some []
modules_of (m ∷ ms) = do
  parsed ← parse_message m.type_name m.value m.involved_addresses
  rest ← modules_of ms
  some (parsed.module_name ∷ rest)

unfoldable pub calculate_total_fee : Value → List Value
unfolding items_list get
calculate_total_fee fee = elim (get "amount" fee) [
  | arr xs ↦ items_list xs
  | v ↦ if truthy v then v ∷ [] else []
]

pub record Gas : Type 0 where
  pub wanted : ℕ
  pub used : ℕ
  pub gas_limit : ℕ

pub record TransactionResponse : Type 0 where
  pub hash : String
  pub height : ℕ
  pub block_hash : String
  pub timestamp : ℕ
  pub success : Bool
  pub fee : List Value
  pub gas : Gas
  pub memo : Option String
  pub messages : List MessageView
  pub logs : Value
  pub involved_addresses : List String
  pub involved_addresses_count : ℕ
  pub signer_infos : Value
  pub message_count : ℕ
  pub message_types : List String
  pub categories : List String

abbrev pub block_hash_of : Option Block → String
block_hash_of none = ""
block_hash_of (some b) = b.hash

abbrev pub timestamp_of : ℕ → Option Block → ℕ
timestamp_of now none = now
timestamp_of now (some b) = b.timestamp

-- The response for a transaction whose table messages are at hand.
unfoldable pub transaction_response : ℕ → Transaction → List Message → Option TransactionResponse
unfolding calculate_total_fee
transaction_response now tx db_messages =
    let messages = message_views tx db_messages in
    let addresses = collect_addresses [] messages in
    modules_of messages >>= λ modules. some (record {
      hash = tx.hash;
      height = tx.height;
      block_hash = block_hash_of tx.block;
      timestamp = timestamp_of now tx.block;
      success = tx.success;
      fee = calculate_total_fee tx.fee;
      gas = record { wanted = tx.gas_wanted; used = tx.gas_used; gas_limit = tx.gas_wanted };
      memo = tx.memo;
      messages = messages;
      logs = or_else tx.logs (arr nil);
      involved_addresses = addresses;
      involved_addresses_count = length addresses;
      signer_infos = tx.signer_infos;
      message_count = length messages;
      message_types = unique (map (λ m. m.type_name) messages);
      categories = unique modules;
    })
