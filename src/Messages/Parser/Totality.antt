-- ===== src/Messages/Parser/Totality.antt =====
-- Parsing a message whose body is an object.
use safrochain_indexer.Prelude.{
  String, Option, some, Bool, true, false, List, ◌≡◌, refl, str_eq, if◌then◌else◌, Option-cases,
  inl, inr,
}
use safrochain_indexer.Prelude.Sets.{includes}
use safrochain_indexer.Json.Value.{Value, obj, arr, nil, Fields, get, or_else}
use safrochain_indexer.Messages.Types.{MessageTypeInfo, ParsedMessage}
use safrochain_indexer.Messages.Registry.{get_message_type_info}
use safrochain_indexer.Messages.Parser.{
  prop, delegation_types, wrap_truthy, array_or_wrapped, extract_amount, parse_unknown, parse_known,
  parse_message,
}

abbrev IsDone : Option Value → Type 0
IsDone o = (v : Value) × (o ≡ some v)

if-IsDone : (b : Bool) (x y : Option Value) → IsDone x → IsDone y → IsDone (if b then x else y)
if-IsDone true x y h k = h
if-IsDone false x y h k = k

extract_amount-IsDone :
    (fs : Fields) (type_name : String)
    → str_eq type_name "cosmos.bank.v1beta1.MsgMultiSend" ≡ false
    → IsDone (extract_amount (obj fs) type_name)
unfolding extract_amount prop
extract_amount-IsDone fs type_name single =
    let amount = get "amount" (obj fs) in
    let deposit = get "initial_deposit" (obj fs) in
    rw single (
      if-IsDone (str_eq type_name "cosmos.bank.v1beta1.MsgSend") _ _
        (or_else amount (arr nil), refl)
        (if-IsDone (includes delegation_types type_name) _ _ (wrap_truthy amount, refl)
          (if-IsDone (str_eq type_name "cosmos.gov.v1.MsgSubmitProposal") _ _
            (or_else deposit (arr nil), refl)
            (if-IsDone (str_eq type_name "cosmos.gov.v1.MsgDeposit") _ _
              (or_else amount (arr nil), refl) (array_or_wrapped amount, refl)))))

parse_known_total :
    (info : MessageTypeInfo) (fs : Fields) (type_name : String) (addresses : List String)
    → IsDone (extract_amount (obj fs) type_name)
    → (p : ParsedMessage) × (parse_known info type_name (obj fs) addresses ≡ some p)
unfolding parse_known
parse_known_total info fs type_name addresses (amount, done) = rw done (_, refl)

-- For every type but a multi-send, registered or not, a message whose body is an object is parsed
-- without an error.
pub parse_message_total :
    (fs : Fields) (type_name : String) (addresses : List String)
    → str_eq type_name "cosmos.bank.v1beta1.MsgMultiSend" ≡ false
    → (p : ParsedMessage) × (parse_message type_name (obj fs) addresses ≡ some p)
unfolding parse_message
parse_message_total fs type_name addresses single =
    elim (Option-cases (get_message_type_info type_name)) [
      | inl missing ↦ (parse_unknown type_name (obj fs) addresses, rw (missing, parse_message) refl)
      | inr (info, found) ↦
          let (p, parsed) =
            parse_known_total info fs type_name addresses
              (extract_amount-IsDone fs type_name single) in
          (p, rw (found, parse_message) parsed)
    ]
