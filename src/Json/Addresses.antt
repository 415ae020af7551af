-- ===== src/Json/Addresses.antt =====
-- `extractAddressesFromMessage` of the transaction service: the addresses that stand anywhere in a
-- message's JSON.
pub mod Laws
use Prim.Native.String.{String}
use text.Mathlib.Text.{starts_with}
use safrochain_indexer.Prelude.{Bool, true, false, ◌&&◌, ◌||◌, List, [], ◌∷◌, if◌then◌else◌}
use safrochain_indexer.Prelude.Sets.{includes, add}
use safrochain_indexer.Json.Value.{
  Value, undefined, null, bool, num, str, date, arr, obj, Items, nil, cons, Fields, end, field,
  is_string,
}

abbrev pub address_fields : List String
address_fields =
    "proposer" ∷ "depositor" ∷ "voter" ∷ "delegator_address" ∷ "validator_address" ∷ "from_address"
    ∷ "to_address" ∷ "sender" ∷ "receiver" ∷ "granter" ∷ "grantee" ∷ "authority" ∷ "admin" ∷ "owner"
    ∷ "creator" ∷ "signer" ∷ "payer" ∷ []

unfoldable pub is_address_field : String → Bool
unfolding includes
is_address_field key = includes address_fields key

-- The three prefixes that make any string an address.
unfoldable pub has_address_prefix : String → Bool
has_address_prefix s = starts_with s "addr_" || (starts_with s "cosmos" || starts_with s "safro")

-- The test of one key of an object; `walked` is what walking the value would give.
unfoldable pub extract_field : String → Value → List String → List String → List String
extract_field key (str s) addresses walked =
    if is_address_field key then add addresses s else walked
extract_field key v addresses walked = walked

-- The closure `extractAddresses`, with the set that it adds to passed along. An array's indices are
-- no address fields, so its elements are walked like the values of any other key; a `Date` has no
-- enumerable property.
unfoldable mutual
  pub extract_addresses : Value → List String → List String
  extract_addresses (str s) addresses = if has_address_prefix s then add addresses s else addresses
  extract_addresses (arr xs) addresses = extract_items xs addresses
  extract_addresses (obj fs) addresses = extract_fields fs addresses
  extract_addresses v addresses = addresses

  pub extract_items : Items → List String → List String
  extract_items nil addresses = addresses
  extract_items (cons v vs) addresses = extract_items vs (extract_addresses v addresses)

  pub extract_fields : Fields → List String → List String
  extract_fields end addresses = addresses
  extract_fields (field key v fs) addresses =
      let walked = extract_addresses v addresses in
      extract_fields fs (extract_field key v addresses walked)

unfoldable pub extract_addresses_from_message : Value → List String
unfolding extract_addresses
extract_addresses_from_message message = extract_addresses message []
