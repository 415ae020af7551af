-- ===== src/Blocks/Messages/Laws.antt =====
-- The block service's copies against the transaction service's functions.
use Prim.Native.String.{String}
use safrochain_indexer.Prelude.{
  ℕ, ◌+◌, some, List, [], ◌∷◌, map, ◌≡◌, refl, ap, sym, ◌∙◌, some_inj, bind-eq-some,
}
use safrochain_indexer.Prelude.Sets.{add, add_all}
use safrochain_indexer.Json.Value.{
  Value, undefined, null, bool, num, str, date, arr, obj, Items, nil, cons, Fields, end, field,
}
use safrochain_indexer.Json.Addresses.{
  is_address_field, has_address_prefix, extract_field, extract_addresses, extract_items,
  extract_fields, extract_addresses_from_message,
}
use safrochain_indexer.Messages.Parser.{parse_message}
use safrochain_indexer.Transactions.Response.{
  MessageView, json_message, json_messages, collect_addresses, modules_of,
}
use safrochain_indexer.Blocks.Messages.{
  starts_as_address, block_extract_field, block_extract, block_extract_items, block_extract_fields,
  block_json_message, block_json_messages, Collected, collect_message, collect_messages,
}

extract_field_same :
    (key : String) (v : Value) (acc walked : List String)
    → block_extract_field key v acc walked ≡ extract_field key v acc walked
unfolding block_extract_field extract_field is_address_field
extract_field_same key undefined acc walked = refl
extract_field_same key null acc walked = refl
extract_field_same key (bool b) acc walked = refl
extract_field_same key (num n) acc walked = refl
extract_field_same key (str s) acc walked = refl
extract_field_same key (date t) acc walked = refl
extract_field_same key (obj fs) acc walked = refl
extract_field_same key (arr xs) acc walked = refl

mutual
  unfolding block_extract extract_addresses starts_as_address has_address_prefix

  extract_same : (v : Value) (acc : List String) → block_extract v acc ≡ extract_addresses v acc
  extract_same undefined acc = refl
  extract_same null acc = refl
  extract_same (bool b) acc = refl
  extract_same (num n) acc = refl
  extract_same (str s) acc = refl
  extract_same (date t) acc = refl
  extract_same (obj fs) acc = extract_fields_same fs acc
  extract_same (arr xs) acc = extract_items_same xs acc

  extract_items_same :
      (vs : Items) (acc : List String) → block_extract_items vs acc ≡ extract_items vs acc
  extract_items_same nil acc = refl
  extract_items_same (cons v vs) acc =
      ap (block_extract_items vs) (extract_same v acc)
      ∙ extract_items_same vs (extract_addresses v acc)

  extract_fields_same :
      (fs : Fields) (acc : List String) → block_extract_fields fs acc ≡ extract_fields fs acc
  extract_fields_same end acc = refl
  extract_fields_same (field key v fs) acc =
      ap (λ w. block_extract_fields fs (block_extract_field key v acc w)) (extract_same v acc)
      ∙ ap (block_extract_fields fs) (extract_field_same key v acc (extract_addresses v acc))
      ∙ extract_fields_same fs (extract_field key v acc (extract_addresses v acc))

json_message_same :
    (index : ℕ) (msg : Value) → block_json_message index msg ≡ json_message index msg
unfolding block_json_message json_message extract_addresses_from_message
json_message_same index msg =
    ap (λ addresses. record (json_message index msg) { involved_addresses = addresses })
      (extract_same msg [])

pub json_messages_same :
    (index : ℕ) (msgs : List Value) → block_json_messages index msgs ≡ json_messages index msgs
unfolding block_json_messages json_messages
json_messages_same index [] = refl
json_messages_same index (msg ∷ msgs) =
    ap (λ m. m ∷ block_json_messages (index + 1) msgs) (json_message_same index msg)
    ∙ ap (λ ms. json_message index msg ∷ ms) (json_messages_same (index + 1) msgs)

-- What the loop has added to its three sets.
pub record IsCollected (c d : Collected) (ms : List MessageView) (modules : List String)
    : Type 0 where
  pub addresses_are : d.addresses ≡ collect_addresses c.addresses ms
  pub types_are : d.types ≡ add_all c.types (map (λ m. m.type_name) ms)
  pub categories_are : d.categories ≡ add_all c.categories modules

pub collect_messages-IsCollected :
    (c d : Collected) (ms : List MessageView) (modules : List String)
    → collect_messages c ms ≡ some d
    → modules_of ms ≡ some modules
    → IsCollected c d ms modules
unfolding collect_messages collect_message collect_addresses modules_of add_all
collect_messages-IsCollected c d [] modules e k =
    let same = sym (some_inj e) in
    record {
      addresses_are = ap (λ d. d.addresses) same;
      types_are = ap (λ d. d.types) same;
      categories_are = ap (λ d. d.categories) same ∙ ap (add_all c.categories) (some_inj k);
    }
collect_messages-IsCollected c d (m ∷ ms) modules e k =
    let (c', first, rest) = bind-eq-some (collect_message c m) _ e in
    let (p, parsed, made) =
      bind-eq-some (parse_message m.type_name m.value m.involved_addresses) _ first in
    let (p', parsed', k') =
      bind-eq-some (parse_message m.type_name m.value m.involved_addresses) _ k in
    let (later, found, joined) = bind-eq-some (modules_of ms) _ k' in
    let r = collect_messages-IsCollected c' d ms later rest found in
    let c_is = sym (some_inj made) in
    let p_is = some_inj (sym parsed ∙ parsed') in
    record {
      addresses_are = r.addresses_are ∙ ap (λ c. collect_addresses c.addresses ms) c_is;
      types_are = r.types_are ∙ ap (λ c. add_all c.types (map (λ m. m.type_name) ms)) c_is;
      categories_are =
          r.categories_are
          ∙ ap (λ c. add_all c.categories later) c_is
          ∙ ap (λ q. add_all (add c.categories q.module_name) later) p_is
          ∙ ap (add_all c.categories) (some_inj joined);
    }
