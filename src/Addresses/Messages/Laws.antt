-- ===== src/Addresses/Messages/Laws.antt =====
-- The address service's copies against the transaction service's functions.
use Prim.Native.String.{String}
use safrochain_indexer.Prelude.{ℕ, ◌+◌, List, [], ◌∷◌, map, ◌≡◌, refl, ap, ◌∙◌, if◌then◌else◌}
use safrochain_indexer.Json.Value.{
  Value, undefined, null, bool, num, str, date, arr, obj, Items, nil, cons, Fields, end, field,
}
use safrochain_indexer.Json.Addresses.{
  is_address_field, has_address_prefix, extract_field, extract_addresses, extract_items,
  extract_fields, extract_addresses_from_message,
}
use safrochain_indexer.Entities.{Transaction, Message}
use safrochain_indexer.Transactions.Response.{
  json_message, json_messages, table_message, message_views, has_json, json_of, calculate_total_fee,
}
use safrochain_indexer.Addresses.Messages.{
  looks_as_address, address_extract_field, address_extract, address_extract_items,
  address_extract_fields, address_json_message, address_json_messages, address_views,
  address_total_fee,
}

extract_field_same :
    (key : String) (v : Value) (acc walked : List String)
    → address_extract_field key v acc walked ≡ extract_field key v acc walked
unfolding address_extract_field extract_field is_address_field
extract_field_same key undefined acc walked = refl
extract_field_same key null acc walked = refl
extract_field_same key (bool b) acc walked = refl
extract_field_same key (num n) acc walked = refl
extract_field_same key (str s) acc walked = refl
extract_field_same key (date t) acc walked = refl
extract_field_same key (obj fs) acc walked = refl
extract_field_same key (arr xs) acc walked = refl

mutual
  unfolding address_extract extract_addresses looks_as_address has_address_prefix

  extract_same : (v : Value) (acc : List String) → address_extract v acc ≡ extract_addresses v acc
  extract_same undefined acc = refl
  extract_same null acc = refl
  extract_same (bool b) acc = refl
  extract_same (num n) acc = refl
  extract_same (str s) acc = refl
  extract_same (date t) acc = refl
  extract_same (obj fs) acc = extract_fields_same fs acc
  extract_same (arr xs) acc = extract_items_same xs acc

  extract_items_same :
      (vs : Items) (acc : List String) → address_extract_items vs acc ≡ extract_items vs acc
  extract_items_same nil acc = refl
  extract_items_same (cons v vs) acc =
      ap (address_extract_items vs) (extract_same v acc)
      ∙ extract_items_same vs (extract_addresses v acc)

  extract_fields_same :
      (fs : Fields) (acc : List String) → address_extract_fields fs acc ≡ extract_fields fs acc
  extract_fields_same end acc = refl
  extract_fields_same (field key v fs) acc =
      ap (λ w. address_extract_fields fs (address_extract_field key v acc w)) (extract_same v acc)
      ∙ ap (address_extract_fields fs) (extract_field_same key v acc (extract_addresses v acc))
      ∙ extract_fields_same fs (extract_field key v acc (extract_addresses v acc))

pub json_message_same :
    (index : ℕ) (msg : Value) → address_json_message index msg ≡ json_message index msg
unfolding address_json_message json_message extract_addresses_from_message
json_message_same index msg =
    ap (λ addresses. record (json_message index msg) { involved_addresses = addresses })
      (extract_same msg [])

pub json_messages_same :
    (index : ℕ) (msgs : List Value) → address_json_messages index msgs ≡ json_messages index msgs
unfolding address_json_messages json_messages
json_messages_same index [] = refl
json_messages_same index (msg ∷ msgs) =
    ap (λ m. m ∷ address_json_messages (index + 1) msgs) (json_message_same index msg)
    ∙ ap (λ ms. json_message index msg ∷ ms) (json_messages_same (index + 1) msgs)

pub address_views-message_views :
    (tx : Transaction) (db : List Message) → address_views tx db ≡ message_views tx db
unfolding address_views message_views
address_views-message_views tx db =
    ap (λ ms. if has_json tx then ms else map table_message db)
      (json_messages_same 0 (json_of tx.messages))

pub address_total_fee-calculate_total_fee :
    (fee : Value) → address_total_fee fee ≡ calculate_total_fee fee
unfolding address_total_fee calculate_total_fee
address_total_fee-calculate_total_fee fee = refl
