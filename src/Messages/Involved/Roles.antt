-- ===== src/Messages/Involved/Roles.antt =====
-- The properties that `extractInvolvedAddresses` reads for each type, against the roles that accounts
-- have in the messages.
use safrochain_indexer.Prelude.{
  String, All, if◌then◌else◌, Bool, false, ◌&&◌, ◌||◌, List, [], ◌∷◌, str_eq, ◌≡◌, refl, ap, ◌∙◌,
  arith, eq_iff, Bool-cases, inl, inr,
}
use safrochain_indexer.Prelude.Sets.{includes}
use safrochain_indexer.Json.Value.{Value, str, Fields, get_field, truthy}
use safrochain_indexer.Messages.Involved.{involved_cases, common_fields, fields_in, involved_fields}

-- A value that is the text `a`.
abbrev pub is_text : String → Value → Bool
is_text a (str s) = str_eq s a
is_text a v = false

-- Whether one of the named properties is the text `a`, which is not empty.
unfoldable pub names_text : String → List String → Fields → Bool
names_text a [] fs = false
names_text a (name ∷ names) fs =
    (truthy (get_field name fs) && is_text a (get_field name fs)) || names_text a names fs

-- Who takes part in a message, by role: a property and the types whose message it names one in.
abbrev pub roles : List (String × List String)
roles =
    ("from_address", "cosmos.bank.v1beta1.MsgSend" ∷ [])
    ∷ ("to_address", "cosmos.bank.v1beta1.MsgSend" ∷ [])
    ∷ (
      "delegator_address",
      "cosmos.staking.v1beta1.MsgDelegate" ∷ "cosmos.staking.v1beta1.MsgUndelegate"
          ∷ "cosmos.staking.v1beta1.MsgBeginRedelegate"
          ∷ "cosmos.distribution.v1beta1.MsgWithdrawDelegatorReward" ∷ [],
    )
    ∷ (
      "validator_address",
      "cosmos.staking.v1beta1.MsgDelegate" ∷ "cosmos.staking.v1beta1.MsgUndelegate"
          ∷ "cosmos.distribution.v1beta1.MsgWithdrawDelegatorReward" ∷ [],
    )
    ∷ ("validator_src_address", "cosmos.staking.v1beta1.MsgBeginRedelegate" ∷ [])
    ∷ ("validator_dst_address", "cosmos.staking.v1beta1.MsgBeginRedelegate" ∷ [])
    ∷ ("validator_addr", "cosmos.slashing.v1beta1.MsgUnjail" ∷ [])
    ∷ ("proposer", "cosmos.gov.v1.MsgSubmitProposal" ∷ [])
    ∷ ("depositor", "cosmos.gov.v1.MsgDeposit" ∷ [])
    ∷ ("voter", "cosmos.gov.v1.MsgVote" ∷ [])
    ∷ (
      "granter",
      "cosmos.feegrant.v1beta1.MsgGrantAllowance" ∷ "cosmos.feegrant.v1beta1.MsgRevokeAllowance"
          ∷ [],
    )
    ∷ (
      "grantee",
      "cosmos.feegrant.v1beta1.MsgGrantAllowance" ∷ "cosmos.feegrant.v1beta1.MsgRevokeAllowance"
          ∷ [],
    )
    ∷ (
      "authority",
      "cosmos.upgrade.v1beta1.MsgSoftwareUpgrade" ∷ "cosmos.upgrade.v1beta1.MsgCancelUpgrade" ∷ [],
    )
    ∷ ("submitter", "cosmos.evidence.v1beta1.MsgSubmitEvidence" ∷ [])
    ∷ []

-- The types of the roles.
abbrev pub role_types : List String
role_types =
    "cosmos.bank.v1beta1.MsgSend" ∷ "cosmos.staking.v1beta1.MsgDelegate"
    ∷ "cosmos.staking.v1beta1.MsgUndelegate" ∷ "cosmos.staking.v1beta1.MsgBeginRedelegate"
    ∷ "cosmos.gov.v1.MsgSubmitProposal" ∷ "cosmos.gov.v1.MsgDeposit" ∷ "cosmos.gov.v1.MsgVote"
    ∷ "cosmos.distribution.v1beta1.MsgWithdrawDelegatorReward" ∷ "cosmos.slashing.v1beta1.MsgUnjail"
    ∷ "cosmos.feegrant.v1beta1.MsgGrantAllowance" ∷ "cosmos.feegrant.v1beta1.MsgRevokeAllowance"
    ∷ "cosmos.upgrade.v1beta1.MsgSoftwareUpgrade" ∷ "cosmos.upgrade.v1beta1.MsgCancelUpgrade"
    ∷ "cosmos.evidence.v1beta1.MsgSubmitEvidence" ∷ []

-- The properties that name a participant of a message of any other type.
abbrev pub common_roles : List String
common_roles =
    "from_address" ∷ "to_address" ∷ "delegator_address" ∷ "validator_address" ∷ "proposer"
    ∷ "depositor" ∷ "voter" ∷ "granter" ∷ "grantee" ∷ "authority" ∷ "submitter" ∷ "sender"
    ∷ "receiver" ∷ []

abbrev pub named : String → String → Fields → Bool
named a name fs = truthy (get_field name fs) && is_text a (get_field name fs)

-- Whether a body names `a` in one of the roles of its type.
unfoldable pub names_in_roles : String → String → List (String × List String) → Fields → Bool
unfolding includes
names_in_roles a type_name [] fs = false
names_in_roles a type_name ((name, types) ∷ rest) fs =
    (includes types type_name && named a name fs) || names_in_roles a type_name rest fs

-- Whether a message's body names `a`, a text that is not empty, as one who takes part in it.
unfoldable pub takes_part : String → String → Fields → Bool
unfolding names_in_roles names_text
takes_part a type_name fs =
    if includes role_types type_name
    then names_in_roles a type_name roles fs
    else names_text a common_roles fs

abbrev Agrees : (String × List String) → Type 0
Agrees (type_name, names) =
    (a : String) (fs : Fields) → names_text a names fs ≡ takes_part a type_name fs

cases-Agrees : All Agrees involved_cases
unfolding takes_part names_in_roles names_text includes
cases-Agrees = (
  λ a fs. ground arith,
  (
    λ a fs. ground arith,
    (
      λ a fs. ground arith,
      (
        λ a fs. ground arith,
        (
          λ a fs. ground arith,
          (
            λ a fs. ground arith,
            (
              λ a fs. ground arith,
              (
                λ a fs. ground arith,
                (
                  λ a fs. ground arith,
                  (
                    λ a fs. ground arith,
                    (
                      λ a fs. ground arith,
                      (λ a fs. ground arith, (λ a fs. ground arith, (λ a fs. ground arith, tt))),
                    ),
                  ),
                ),
              ),
            ),
          ),
        ),
      ),
    ),
  ),
)

common-Agrees :
    (a type_name : String) (fs : Fields)
    → includes role_types type_name ≡ false
    → names_text a common_fields fs ≡ takes_part a type_name fs
unfolding takes_part names_text
common-Agrees a type_name fs other = rw other refl

-- The type is none of those that cases stand for.
abbrev IsOther : String → List (String × List String) → Type 0
IsOther type_name cases = All (λ c. str_eq c.0 type_name ≡ false) cases

fields_in-Agrees :
    (a type_name : String) (fs : Fields) (cases : List (String × List String))
    → All Agrees cases
    → (IsOther type_name cases → names_text a common_fields fs ≡ takes_part a type_name fs)
    → names_text a (fields_in type_name cases) fs ≡ takes_part a type_name fs
unfolding fields_in
fields_in-Agrees a type_name fs [] all_agree rest = rest tt
fields_in-Agrees a type_name fs ((t, names) ∷ cases) (agrees, all_agree) rest =
    elim (Bool-cases (str_eq t type_name)) [
      | inl e ↦ rw e (agrees a fs ∙ ap (λ t. takes_part a t fs) ((eq_iff t type_name).0 e))
      | inr e ↦ rw e (fields_in-Agrees a type_name fs cases all_agree (λ others. rest (e, others)))
    ]

other_types :
    (type_name : String) → IsOther type_name involved_cases → includes role_types type_name ≡ false
unfolding includes
other_types type_name
      (e1, (e2, (e3, (e4, (e5, (e6, (e7, (e8, (e9, (e10, (e11, (e12, (e13, (e14, u)))))))))))))) =
    rw (e1, e2, e3, e4, e5, e6, e7, e8, e9, e10, e11, e12, e13, e14) refl

pub involved_fields-takes_part :
    (a type_name : String) (fs : Fields)
    → names_text a (involved_fields type_name) fs ≡ takes_part a type_name fs
unfolding involved_fields
involved_fields-takes_part a type_name fs =
    fields_in-Agrees a type_name fs involved_cases cases-Agrees
      (λ others. common-Agrees a type_name fs (other_types type_name others))
