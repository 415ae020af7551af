-- ===== src/Messages/Involved.antt =====
-- `extractInvolvedAddresses`: which properties of a message's body it reads for each type. A value
-- is pushed if it is truthy, whatever its kind, and reading a property of null or undefined throws.
-- Objects that come from one JSON text are never identical, so `Set` keeps them apart.
pub mod Roles
pub mod Laws
use safrochain_indexer.Prelude.{
  String, Option, none, some, Bool, true, false, List, [], ◌∷◌, ◌++◌, ◌==◌, str_eq, if◌then◌else◌,
  ◌>>=◌,
}
use safrochain_indexer.Prelude.Int.{pos, negsuc}
use safrochain_indexer.Paging.Query.{once}
use safrochain_indexer.Json.Value.{Value, num, str, bool, arr, Items, nil, cons, truthy}
use safrochain_indexer.Messages.Parser.{prop}
use mathlib.Core.Option

abbrev pub multi_send : String
multi_send = "cosmos.bank.v1beta1.MsgMultiSend"

-- The cases of the switch that read plain properties.
abbrev pub involved_cases : List (String × List String)
involved_cases =
    ("cosmos.bank.v1beta1.MsgSend", "from_address" ∷ "to_address" ∷ [])
    ∷ ("cosmos.staking.v1beta1.MsgDelegate", "delegator_address" ∷ "validator_address" ∷ [])
    ∷ ("cosmos.staking.v1beta1.MsgUndelegate", "delegator_address" ∷ "validator_address" ∷ [])
    ∷ (
      "cosmos.staking.v1beta1.MsgBeginRedelegate",
      "delegator_address" ∷ "validator_src_address" ∷ "validator_dst_address" ∷ [],
    )
    ∷ ("cosmos.gov.v1.MsgSubmitProposal", "proposer" ∷ [])
    ∷ ("cosmos.gov.v1.MsgDeposit", "depositor" ∷ [])
    ∷ ("cosmos.gov.v1.MsgVote", "voter" ∷ [])
    ∷ (
      "cosmos.distribution.v1beta1.MsgWithdrawDelegatorReward",
      "delegator_address" ∷ "validator_address" ∷ [],
    )
    ∷ ("cosmos.slashing.v1beta1.MsgUnjail", "validator_addr" ∷ [])
    ∷ ("cosmos.feegrant.v1beta1.MsgGrantAllowance", "granter" ∷ "grantee" ∷ [])
    ∷ ("cosmos.feegrant.v1beta1.MsgRevokeAllowance", "granter" ∷ "grantee" ∷ [])
    ∷ ("cosmos.upgrade.v1beta1.MsgSoftwareUpgrade", "authority" ∷ [])
    ∷ ("cosmos.upgrade.v1beta1.MsgCancelUpgrade", "authority" ∷ [])
    ∷ ("cosmos.evidence.v1beta1.MsgSubmitEvidence", "submitter" ∷ [])
    ∷ []

-- The default case.
abbrev pub common_fields : List String
common_fields =
    "from_address" ∷ "to_address" ∷ "delegator_address" ∷ "validator_address" ∷ "proposer"
    ∷ "depositor" ∷ "voter" ∷ "granter" ∷ "grantee" ∷ "authority" ∷ "submitter" ∷ "sender"
    ∷ "receiver" ∷ []

unfoldable pub fields_in : String → List (String × List String) → List String
fields_in type_name [] = common_fields
fields_in type_name ((t, names) ∷ cases) =
    if str_eq t type_name then names else fields_in type_name cases

unfoldable pub involved_fields : String → List String
involved_fields type_name = fields_in type_name involved_cases

-- `if (v) addresses.push(v)`, in front of the later pushes.
abbrev pub push_truthy : Value → List Value → List Value
push_truthy v rest = if truthy v then v ∷ rest else rest

unfoldable pub push_fields : List String → Value → Option (List Value)
push_fields [] value = some []
push_fields (name ∷ names) value =
    prop name value >>= λ v. Option.map (push_truthy v) (push_fields names value)

-- `value.inputs.forEach(...)` and the same of the outputs.
unfoldable pub party_addresses : Items → Option (List Value)
party_addresses nil = some []
party_addresses (cons party parties) =
    prop "address" party >>= λ v. Option.map (push_truthy v) (party_addresses parties)

unfoldable pub parties_of : Value → Option (List Value)
parties_of (arr parties) = party_addresses parties
parties_of v = if truthy v then none else some []

unfoldable pub multi_send_addresses : Value → Option (List Value)
multi_send_addresses value = do
  inputs ← prop "inputs" value
  senders ← parties_of inputs
  outputs ← prop "outputs" value
  receivers ← parties_of outputs
  some (senders ++ receivers)

-- `Set`'s equality on values that are truthy.
unfoldable pub same_value : Value → Value → Bool
same_value (str s) (str t) = str_eq s t
same_value (num (pos m)) (num (pos n)) = m == n
same_value (num (negsuc m)) (num (negsuc n)) = m == n
same_value (bool true) (bool true) = true
same_value v w = false

unfoldable pub extract_involved_addresses : Value → String → Option (List Value)
extract_involved_addresses value type_name = Option.map (once same_value) (
    if str_eq type_name multi_send
    then multi_send_addresses value
    else push_fields (involved_fields type_name) value)
