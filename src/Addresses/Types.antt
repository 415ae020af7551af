-- ===== src/Addresses/Types.antt =====
-- `getMessageType`, `extractAmountFromMessage`, `extractAddressesFromTransaction` and
-- `calculateTotalFee` of the address service. A type named as a property of `Object.prototype` is
-- left aside.
use Prim.Native.Char.{code}
use safrochain_indexer.Prelude.{String, List, [], ◌∷◌, str_eq, if◌then◌else◌, ◌==◌, ◌||◌}
use safrochain_indexer.Prelude.Sets.{add_all}
use safrochain_indexer.Json.Value.{Value, arr, nil, cons, get, truthy, or_else}
use safrochain_indexer.Json.Addresses.{extract_addresses_from_message}
use safrochain_indexer.Entities.{Transaction}
use safrochain_indexer.Transactions.Response.{json_of}

-- `type.startsWith("/") ? type.slice(1) : type`
unfoldable pub normalized_type : String → String
normalized_type String.[] = String.[]
normalized_type (String.◌∷◌ c s) = if code c == 47 then s else String.◌∷◌ c s

abbrev pub type_map : List (String × String)
type_map =
    ("cosmos.bank.v1beta1.MsgSend", "send")
    ∷ ("cosmos.bank.v1beta1.MsgMultiSend", "multi_send")
    ∷ ("cosmos.staking.v1beta1.MsgDelegate", "delegate")
    ∷ ("cosmos.staking.v1beta1.MsgUndelegate", "undelegate")
    ∷ ("cosmos.staking.v1beta1.MsgBeginRedelegate", "redelegate")
    ∷ ("cosmos.gov.v1beta1.MsgSubmitProposal", "submit_proposal")
    ∷ ("cosmos.gov.v1beta1.MsgVote", "vote")
    ∷ ("cosmos.gov.v1beta1.MsgDeposit", "deposit")
    ∷ []

-- `map[key] || "unknown"`
unfoldable pub entry_or_unknown : List (String × String) → String → String
entry_or_unknown [] key = "unknown"
entry_or_unknown ((k, v) ∷ entries) key = if str_eq k key then v else entry_or_unknown entries key

unfoldable pub get_message_type : String → String
unfolding normalized_type entry_or_unknown
get_message_type type_name = entry_or_unknown type_map (normalized_type type_name)

-- `value.amount ? [value.amount] : []`
abbrev wrapped : Value → Value
wrapped v = if truthy v then arr (cons v nil) else arr nil

unfoldable pub extract_amount_from_message : Value → String → Value
unfolding normalized_type get
extract_amount_from_message value type_name =
    let t = normalized_type type_name in
    let amount = get "amount" value in
    if truthy value
    then (if str_eq t "cosmos.bank.v1beta1.MsgSend"
        then or_else amount (arr nil)
        else if str_eq t "cosmos.staking.v1beta1.MsgDelegate"
            || str_eq t "cosmos.staking.v1beta1.MsgUndelegate"
        then wrapped amount
        else if str_eq t "cosmos.gov.v1beta1.MsgDeposit"
        then or_else amount (arr nil)
        else arr nil)
    else arr nil

-- `msgs.forEach((msg) => extractAddressesFromMessage(msg).forEach((addr) => addresses.add(addr)))`
unfoldable pub addresses_from : List String → List Value → List String
unfolding add_all
addresses_from set [] = set
addresses_from set (msg ∷ msgs) =
    addresses_from (add_all set (extract_addresses_from_message msg)) msgs

unfoldable pub extract_addresses_from_transaction : Transaction → List String
unfolding addresses_from
extract_addresses_from_transaction tx = addresses_from [] (json_of tx.messages)
