-- ===== src/Json/Addresses/Laws.antt =====
-- What `extractAddressesFromMessage` finds, against a description of where an address stands.
use safrochain_indexer.Prelude.{
  Bool, true, false, ◌&&◌, ◌||◌, List, [], str_eq, String, ◌≡◌, ◌↔◌, arith, ◌∙◌, ap,
}
use safrochain_indexer.Prelude.Sets.{includes, includes-add, Distinct, Distinct-add}
use safrochain_indexer.Json.Value.{Value, str, arr, obj, Items, nil, cons, Fields, end, field}
use safrochain_indexer.Json.Addresses.{
  is_address_field, has_address_prefix, extract_field, extract_addresses, extract_items,
  extract_fields, extract_addresses_from_message,
}

-- Whether the address `a` stands in a value: as a string with an address prefix anywhere, or as
-- any string under a key that names an address.
unfoldable mutual
  pub stands : String → Value → Bool
  stands a (str s) = has_address_prefix s && str_eq s a
  stands a (arr xs) = stands_items a xs
  stands a (obj fs) = stands_fields a fs
  stands a v = false

  pub stands_items : String → Items → Bool
  stands_items a nil = false
  stands_items a (cons v vs) = stands a v || stands_items a vs

  pub stands_fields : String → Fields → Bool
  stands_fields a end = false
  stands_fields a (field key v fs) = stands_field a key v || stands_fields a fs

  pub stands_field : String → String → Value → Bool
  stands_field a key (str s) = (is_address_field key || has_address_prefix s) && str_eq s a
  stands_field a key (arr xs) = stands_items a xs
  stands_field a key (obj fs) = stands_fields a fs
  stands_field a key v = false

includes-extract_field :
    (a key : String) (v : Value) (acc walked : List String)
    → includes walked a ≡ (includes acc a || stands a v)
    → includes (extract_field key v acc walked) a ≡ (includes acc a || stands_field a key v)
unfolding extract_field stands
includes-extract_field a key (str s) acc walked h = ground (arith, includes-add acc s a)
includes-extract_field a key v acc walked h = h

or_assoc : (a b c : Bool) → ((a || b) || c) ≡ (a || (b || c))
or_assoc a b c = ground arith

mutual
  unfolding extract_addresses stands

  includes-extract_addresses :
      (a : String) (v : Value) (acc : List String)
      → includes (extract_addresses v acc) a ≡ (includes acc a || stands a v)
  includes-extract_addresses a (str s) acc = ground (arith, includes-add acc s a)
  includes-extract_addresses a (arr xs) acc = includes-extract_items a xs acc
  includes-extract_addresses a (obj fs) acc = includes-extract_fields a fs acc
  includes-extract_addresses a v acc = ground arith

  includes-extract_items :
      (a : String) (vs : Items) (acc : List String)
      → includes (extract_items vs acc) a ≡ (includes acc a || stands_items a vs)
  includes-extract_items a nil acc = ground arith
  includes-extract_items a (cons v vs) acc =
      includes-extract_items a vs (extract_addresses v acc)
      ∙ ap (λ b. b || stands_items a vs) (includes-extract_addresses a v acc)
      ∙ or_assoc (includes acc a) (stands a v) (stands_items a vs)

  includes-extract_fields :
      (a : String) (fs : Fields) (acc : List String)
      → includes (extract_fields fs acc) a ≡ (includes acc a || stands_fields a fs)
  includes-extract_fields a end acc = ground arith
  includes-extract_fields a (field key v fs) acc =
      includes-extract_fields a fs (extract_field key v acc (extract_addresses v acc))
      ∙ ap (λ b. b || stands_fields a fs)
          (includes-extract_field a key v acc (extract_addresses v acc)
            (includes-extract_addresses a v acc))
      ∙ or_assoc (includes acc a) (stands_field a key v) (stands_fields a fs)

Distinct-extract_field :
    (key : String) (v : Value) (acc walked : List String)
    → Distinct acc
    → Distinct walked
    → Distinct (extract_field key v acc walked)
unfolding extract_field
Distinct-extract_field key (str s) acc walked d e = ground (arith, Distinct-add acc s d)
Distinct-extract_field key v acc walked d e = e

mutual
  unfolding extract_addresses

  Distinct-extract_addresses :
      (v : Value) (acc : List String) → Distinct acc → Distinct (extract_addresses v acc)
  Distinct-extract_addresses (str s) acc d = ground (arith, Distinct-add acc s d)
  Distinct-extract_addresses (arr xs) acc d = Distinct-extract_items xs acc d
  Distinct-extract_addresses (obj fs) acc d = Distinct-extract_fields fs acc d
  Distinct-extract_addresses v acc d = d

  Distinct-extract_items :
      (vs : Items) (acc : List String) → Distinct acc → Distinct (extract_items vs acc)
  Distinct-extract_items nil acc d = d
  Distinct-extract_items (cons v vs) acc d =
      Distinct-extract_items vs (extract_addresses v acc) (Distinct-extract_addresses v acc d)

  Distinct-extract_fields :
      (fs : Fields) (acc : List String) → Distinct acc → Distinct (extract_fields fs acc)
  Distinct-extract_fields end acc d = d
  Distinct-extract_fields (field key v fs) acc d =
      Distinct-extract_fields fs (extract_field key v acc (extract_addresses v acc)) (
        Distinct-extract_field key v acc (extract_addresses v acc) d
          (Distinct-extract_addresses v acc d))

-- The extracted list holds an address exactly when the address stands in the message: as a string
-- with an address prefix at any depth, or as any string under a key that names an address.
pub extract_addresses_from_message_iff :
    (message : Value) (a : String)
    → (includes (extract_addresses_from_message message) a ≡ true) ↔ (stands a message ≡ true)
unfolding extract_addresses_from_message includes
extract_addresses_from_message_iff message a =
    let e = includes-extract_addresses a message [] in
    (λ h. ground (arith, e), λ h. ground (arith, e))

-- No address is listed twice, however often it stands in the message.
pub Distinct-extract_addresses_from_message :
    (message : Value) → Distinct (extract_addresses_from_message message)
unfolding extract_addresses_from_message
Distinct-extract_addresses_from_message message = Distinct-extract_addresses message [] tt
