-- ===== src/Addresses/Messages.antt =====
-- The address service's own `extractAddressesFromMessage` and `calculateTotalFee`, and the messages of
-- a transaction that `processAddressTransactionResponse` starts from.
pub mod Laws
use Prim.Native.String.{String}
use text.Mathlib.Text.{starts_with}
use safrochain_indexer.Prelude.{ℕ, ◌+◌, Bool, ◌||◌, List, [], ◌∷◌, map, if◌then◌else◌}
use safrochain_indexer.Prelude.Sets.{includes, add}
use safrochain_indexer.Json.Value.{
  Value, undefined, null, bool, num, str, date, arr, obj, Items, nil, cons, Fields, end, field,
  truthy, get, items_list,
}
use safrochain_indexer.Entities.{Transaction, Message}
use safrochain_indexer.Transactions.Response.{
  MessageView, message_type, has_json, json_of, table_message,
}

abbrev pub named_address_fields : List String
named_address_fields =
    "proposer" ∷ "depositor" ∷ "voter" ∷ "delegator_address" ∷ "validator_address" ∷ "from_address"
    ∷ "to_address" ∷ "sender" ∷ "receiver" ∷ "granter" ∷ "grantee" ∷ "authority" ∷ "admin" ∷ "owner"
    ∷ "creator" ∷ "signer" ∷ "payer" ∷ []

unfoldable pub looks_as_address : String → Bool
looks_as_address s = starts_with s "addr_" || (starts_with s "cosmos" || starts_with s "safro")

-- The test of one key of an object; `walked` is what walking the value would give.
unfoldable pub address_extract_field : String → Value → List String → List String → List String
unfolding includes
address_extract_field key (str s) addresses walked =
    if includes named_address_fields key then add addresses s else walked
address_extract_field key v addresses walked = walked

-- The closure `extractAddresses`, with the set that it adds to passed along.
unfoldable mutual
  pub address_extract : Value → List String → List String
  address_extract (str s) addresses = if looks_as_address s then add addresses s else addresses
  address_extract (arr xs) addresses = address_extract_items xs addresses
  address_extract (obj fs) addresses = address_extract_fields fs addresses
  address_extract v addresses = addresses

  pub address_extract_items : Items → List String → List String
  address_extract_items nil addresses = addresses
  address_extract_items (cons v vs) addresses =
      address_extract_items vs (address_extract v addresses)

  pub address_extract_fields : Fields → List String → List String
  address_extract_fields end addresses = addresses
  address_extract_fields (field key v fs) addresses =
      let walked = address_extract v addresses in
      address_extract_fields fs (address_extract_field key v addresses walked)

unfoldable pub address_json_message : ℕ → Value → MessageView
unfolding address_extract
address_json_message index msg = record {
  type_name = message_type msg;
  value = msg;
  index = index;
  involved_addresses = address_extract msg [];
}

-- `transaction.messages.map((msg, index) => ...)`, from an index on.
unfoldable pub address_json_messages : ℕ → List Value → List MessageView
unfolding address_json_message
address_json_messages index [] = []
address_json_messages index (msg ∷ msgs) =
    address_json_message index msg ∷ address_json_messages (index + 1) msgs

-- The JSON column's messages, or those of the message table where the column is empty.
unfoldable pub address_views : Transaction → List Message → List MessageView
unfolding address_json_messages table_message
address_views tx db_messages =
    if has_json tx
    then address_json_messages 0 (json_of tx.messages)
    else map table_message db_messages

-- `calculateTotalFee`
unfoldable pub address_total_fee : Value → List Value
unfolding items_list get
address_total_fee fee = elim (get "amount" fee) [
  | arr xs ↦ items_list xs
  | v ↦ if truthy v then v ∷ [] else []
]
