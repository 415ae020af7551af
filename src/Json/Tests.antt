-- ===== src/Json/Tests.antt =====
-- Addresses and dates in concrete messages.
use Prim.Native.String.{String}
use safrochain_indexer.Prelude.{
  Option, none, some, true, false, [], ◌∷◌, ◌≡◌, ◌↔◌, refl, str_eq, eq_iff, Bool-cases, inl, inr,
}
use safrochain_indexer.Prelude.Int.{ℤ, pos}
use safrochain_indexer.Prelude.Sets.{includes, add}
use safrochain_indexer.Amounts.Decimal.{decimal}
use safrochain_indexer.Json.Value.{
  Value, null, num, str, date, arr, obj, nil, cons, Fields, end, field,
}
use safrochain_indexer.Json.Text.{to_lower_case, starts_codes, includes_codes}
use safrochain_indexer.Json.Addresses.{
  is_address_field, has_address_prefix, extract_field, extract_addresses,
  extract_addresses_from_message,
}
use safrochain_indexer.Json.Addresses.Laws.{stands, extract_addresses_from_message_iff}
use safrochain_indexer.Json.Dates.{
  DateText, is_date_key, to_iso_string, serialize_date, serialize_dates,
}
use safrochain_indexer.Json.Dates.Laws.{
  is_plain, has_invalid, is_plain-serialize_dates, serialize_dates_total,
}

abbrev send : Value
send = obj (
    field "@type" (str "cosmos.bank.v1beta1.MsgSend") (
      field "from_address" (str "addr_safro1a")
        (field "to_address" (str "bob") (field "note" (str "addr_safro1a") end))))

addresses_of_send :
    extract_addresses_from_message send
    ≡ "cosmos.bank.v1beta1.MsgSend" ∷ "addr_safro1a" ∷ "bob" ∷ []
unfolding extract_addresses_from_message extract_addresses extract_field is_address_field
    has_address_prefix includes add
addresses_of_send = refl

extract_addresses_from_message_iff_example :
    (includes (extract_addresses_from_message send) "bob" ≡ true) ↔ (stands "bob" send ≡ true)
extract_addresses_from_message_iff_example = extract_addresses_from_message_iff send "bob"

-- Dates written as a letter and the milliseconds.
iso_time : ℤ → String
iso_time t = String.◌∷◌ "T" (decimal.print t)

time_of : String → Option ℤ
time_of String.[] = none
time_of (String.◌∷◌ c s) = decimal.parse s

time_of-iso_time : (t : ℤ) → time_of (iso_time t) ≡ some t
unfolding time_of iso_time
time_of-iso_time t = decimal.parse-print t

iso_time-ne : (t : ℤ) → str_eq (iso_time t) "" ≡ false
unfolding iso_time
iso_time-ne t = elim (Bool-cases (str_eq (iso_time t) "")) [
  | inl e ↦ absurd (cc ((eq_iff (iso_time t) "").0 e))
  | inr e ↦ e
]

abbrev texts : DateText
texts = record {
  parse = time_of;
  to_iso = iso_time;
  parse-to_iso = time_of-iso_time;
  to_iso-ne = iso_time-ne;
}

-- An IBC transfer's timeout, and a block's time.
abbrev timeout_height : Value
timeout_height = obj (field "revision_height" (num (pos 7)) end)

abbrev transfer_fields : Fields
transfer_fields = field "timeout_height" timeout_height (field "at" (date (some (pos 5))) end)

abbrev serialized : Value
serialized = obj (field "timeout_height" null (field "at" (str (iso_time (pos 5))) end))

serialize_transfer : serialize_dates texts (obj transfer_fields) ≡ some serialized
unfolding serialize_dates serialize_date to_iso_string is_date_key to_lower_case starts_codes
    includes_codes
serialize_transfer = refl

is_plain-serialize_dates_example : is_plain serialized ≡ true
is_plain-serialize_dates_example =
    is_plain-serialize_dates texts (obj transfer_fields) serialized serialize_transfer

serialize_dates_total_example : (w : Value) × (serialize_dates texts (obj transfer_fields) ≡ some w)
serialize_dates_total_example =
    serialize_dates_total texts (obj transfer_fields) (unfold has_invalid in refl)

invalid_date_throws : serialize_dates texts (arr (cons (date none) nil)) ≡ none
unfolding serialize_dates to_iso_string
invalid_date_throws = refl
