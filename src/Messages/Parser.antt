-- ===== src/Messages/Parser.antt =====
-- `parseMessage` and `extractAmount`. A message's value is the JSON body; reading a property of
-- null or undefined throws, which is `none` here.
pub mod Laws
pub mod Totality
use Prim.Native.String.{String}
use Prim.Native.String
use safrochain_indexer.Prelude.{
  Option, none, some, Bool, true, false, List, [], ◌∷◌, ◌++◌, ◌≡◌, str_eq, if◌then◌else◌, ◌>>=◌,
  ◌||◌,
}
use safrochain_indexer.Prelude.Sets.{includes}
use safrochain_indexer.Json.Value.{
  Value, undefined, null, bool, num, str, date, arr, obj, Items, nil, cons, Fields, get, truthy,
  or_else, items_of, items_list,
}
use safrochain_indexer.Messages.Types.{MessageTypeInfo, ParsedMessage}
use safrochain_indexer.Messages.Registry.{get_message_type_info}
use safrochain_indexer.Messages.Names.{extract_module_from_type, extract_label_from_type}

-- `value.key`, which throws on null and undefined.
unfoldable pub prop : String → Value → Option Value
prop key undefined = none
prop key null = none
prop key v = some (get key v)

chars : String → List Value
chars String.[] = []
chars (String.◌∷◌ c s) = str (String.◌∷◌ c String.[]) ∷ chars s

-- `...value` inside an argument list: arrays and strings are iterable.
unfoldable pub spread : Value → Option (List Value)
unfolding items_list chars
spread (arr xs) = some (items_list xs)
spread (str s) = some (chars s)
spread v = none

-- The loop over the inputs of a multi-send.
unfoldable pub input_coins : Items → List Value → Option (List Value)
input_coins nil amounts = some amounts
input_coins (cons input inputs) amounts = do
  coins ← prop "coins" input
  more ← if truthy coins then spread coins else some []
  input_coins inputs (amounts ++ more)

-- `value.inputs.forEach(...)` where `inputs` is truthy: only an array has `forEach`.
unfoldable pub multi_send_coins : Value → Option (List Value)
multi_send_coins (arr inputs) = input_coins inputs []
multi_send_coins v = if truthy v then none else some []

-- `amounts.length > 0 ? amounts : undefined`
abbrev pub unless_empty : List Value → Value
unless_empty [] = undefined
unless_empty (v ∷ vs) = arr (items_of (v ∷ vs))

abbrev pub is_array : Value → Bool
is_array (arr xs) = true
is_array v = false

-- `[v]`, for a truthy `v`
abbrev pub wrap_truthy : Value → Value
wrap_truthy v = if truthy v then arr (cons v nil) else undefined

abbrev pub array_or_wrapped : Value → Value
array_or_wrapped v = if is_array v then v else wrap_truthy v

-- The types whose amount is one coin object.
abbrev pub delegation_types : List String
delegation_types =
    "cosmos.staking.v1beta1.MsgDelegate" ∷ "cosmos.staking.v1beta1.MsgUndelegate"
    ∷ "cosmos.staking.v1beta1.MsgBeginRedelegate" ∷ []

unfoldable pub extract_amount : Value → String → Option Value
extract_amount value type_name =
    if str_eq type_name "cosmos.bank.v1beta1.MsgSend"
    then (do amount ← prop "amount" value; some (or_else amount (arr nil)))
    else if str_eq type_name "cosmos.bank.v1beta1.MsgMultiSend"
    then (do
      inputs ← prop "inputs" value
      amounts ← multi_send_coins inputs
      some (unless_empty amounts))
    else if includes delegation_types type_name
    then (do amount ← prop "amount" value; some (wrap_truthy amount))
    else if str_eq type_name "cosmos.gov.v1.MsgSubmitProposal"
    then (do deposit ← prop "initial_deposit" value; some (or_else deposit (arr nil)))
    else if str_eq type_name "cosmos.gov.v1.MsgDeposit"
    then (do amount ← prop "amount" value; some (or_else amount (arr nil)))
    else (do amount ← prop "amount" value; some (array_or_wrapped amount))

-- The answer for a type that is not registered.
unfoldable pub parse_unknown : String → Value → List String → ParsedMessage
parse_unknown type_name value involved_addresses = record {
  type_name = type_name;
  module_name = extract_module_from_type type_name;
  label = extract_label_from_type type_name;
  value = value;
  involved_addresses = involved_addresses;
  amount = undefined;
  description = "Unknown message type";
  category = none;
}

-- The answer for a registered type; `category` is declared in the interface and not filled in.
unfoldable pub parse_known : MessageTypeInfo → String → Value → List String → Option ParsedMessage
parse_known info type_name value involved_addresses = do
  amount ← extract_amount value type_name
  some (record {
    type_name = type_name;
    module_name = info.module_name;
    label = info.label;
    value = value;
    involved_addresses = involved_addresses;
    amount = amount;
    description = info.description;
    category = none;
  })

unfoldable pub parse_message : String → Value → List String → Option ParsedMessage
parse_message type_name value involved_addresses = elim (get_message_type_info type_name) [
  | none ↦ some (parse_unknown type_name value involved_addresses)
  | some info ↦ parse_known info type_name value involved_addresses
]
