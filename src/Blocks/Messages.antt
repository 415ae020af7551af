-- ===== src/Blocks/Messages.antt =====
-- The block service's own `extractAddressesFromMessage` and the loop of `getBlockTransactions` over a
-- transaction's messages.
pub mod Laws
use Prim.Native.String.{String}
use text.Mathlib.Text.{starts_with}
use safrochain_indexer.Prelude.{
  ℕ, ◌+◌, Option, some, Bool, ◌||◌, List, [], ◌∷◌, if◌then◌else◌, ◌>>=◌,
}
use safrochain_indexer.Prelude.Sets.{includes, add, add_all}
use safrochain_indexer.Json.Value.{
  Value, undefined, null, bool, num, str, date, arr, obj, Items, nil, cons, Fields, end, field,
}
use safrochain_indexer.Messages.Parser.{parse_message}
use safrochain_indexer.Entities.{Transaction}
use safrochain_indexer.Transactions.Response.{MessageView, message_type, has_json, json_of}

abbrev pub block_address_fields : List String
block_address_fields =
    "proposer" ∷ "depositor" ∷ "voter" ∷ "delegator_address" ∷ "validator_address" ∷ "from_address"
    ∷ "to_address" ∷ "sender" ∷ "receiver" ∷ "granter" ∷ "grantee" ∷ "authority" ∷ "admin" ∷ "owner"
    ∷ "creator" ∷ "signer" ∷ "payer" ∷ []

unfoldable pub starts_as_address : String → Bool
starts_as_address s = starts_with s "addr_" || (starts_with s "cosmos" || starts_with s "safro")

-- The test of one key of an object; `walked` is what walking the value would give.
unfoldable pub block_extract_field : String → Value → List String → List String → List String
unfolding includes
block_extract_field key (str s) addresses walked =
    if includes block_address_fields key then add addresses s else walked
block_extract_field key v addresses walked = walked

-- The closure `extractAddresses`, with the set that it adds to passed along.
unfoldable mutual
  pub block_extract : Value → List String → List String
  block_extract (str s) addresses = if starts_as_address s then add addresses s else addresses
  block_extract (arr xs) addresses = block_extract_items xs addresses
  block_extract (obj fs) addresses = block_extract_fields fs addresses
  block_extract v addresses = addresses

  pub block_extract_items : Items → List String → List String
  block_extract_items nil addresses = addresses
  block_extract_items (cons v vs) addresses = block_extract_items vs (block_extract v addresses)

  pub block_extract_fields : Fields → List String → List String
  block_extract_fields end addresses = addresses
  block_extract_fields (field key v fs) addresses =
      let walked = block_extract v addresses in
      block_extract_fields fs (block_extract_field key v addresses walked)

unfoldable pub block_json_message : ℕ → Value → MessageView
unfolding block_extract
block_json_message index msg = record {
  type_name = message_type msg;
  value = msg;
  index = index;
  involved_addresses = block_extract msg [];
}

-- `tx.messages.map((msg, index) => ...)`, from an index on.
unfoldable pub block_json_messages : ℕ → List Value → List MessageView
unfolding block_json_message
block_json_messages index [] = []
block_json_messages index (msg ∷ msgs) =
    block_json_message index msg ∷ block_json_messages (index + 1) msgs

-- The messages of the JSON column, and no others.
unfoldable pub block_messages : Transaction → List MessageView
unfolding block_json_messages
block_messages tx = if has_json tx then block_json_messages 0 (json_of tx.messages) else []

-- The three sets that one loop fills.
pub record Collected : Type 0 where
  pub addresses : List String
  pub types : List String
  pub categories : List String

abbrev pub nothing_collected : Collected
nothing_collected = record { addresses = []; types = []; categories = [] }

-- The body of `messages.forEach(...)`; none if the parser throws.
unfoldable pub collect_message : Collected → MessageView → Option Collected
unfolding add_all
collect_message c m = parse_message m.type_name m.value m.involved_addresses >>= λ parsed.
    some (record {
      addresses = add_all c.addresses m.involved_addresses;
      types = add c.types m.type_name;
      categories = add c.categories parsed.module_name;
    })

unfoldable pub collect_messages : Collected → List MessageView → Option Collected
unfolding collect_message
collect_messages c [] = some c
collect_messages c (m ∷ ms) = collect_message c m >>= λ c'. collect_messages c' ms
