-- ===== src/Messages/Parser/Laws.antt =====
-- What `parseMessage` says of registered and unknown types, and the shape of amounts.
use safrochain_indexer.Prelude.{
  Option, none, some, Bool, true, false, List, [], ◌∷◌, ◌≡◌, ◌⊎◌, inl, inr, str_eq, if◌then◌else◌,
  ◌>>=◌, String, refl, Option-cases, ap, subst, some_inj, sym, eq_iff, bind-eq-some, ◌∙◌,
}
use safrochain_indexer.Prelude.Sets.{includes}
use safrochain_indexer.Json.Value.{Value, undefined, arr, nil, cons, truthy}
use safrochain_indexer.Messages.Types.{MessageTypeInfo, ParsedMessage}
use safrochain_indexer.Messages.Registry.{get_message_type_info}
use safrochain_indexer.Messages.Names.{extract_module_from_type}
use safrochain_indexer.Messages.Parser.{
  prop, multi_send_coins, unless_empty, is_array, delegation_types, wrap_truthy, array_or_wrapped,
  extract_amount, parse_message, parse_known, parse_unknown,
}

-- The module of a message, as the services' `categories` list it: the registered one, else the
-- second part of the type.
pub module_of : String → String
module_of type_name = elim (get_message_type_info type_name) [
  | none ↦ extract_module_from_type type_name
  | some info ↦ info.module_name
]

-- What every answer of the parser says, whichever branch made it.
pub record Describes (type_name : String) (value : Value) (addresses : List String)
    (p : ParsedMessage) : Type 0 where
  pub type_is : p.type_name ≡ type_name
  pub module_is : p.module_name ≡ module_of type_name
  pub value_is : p.value ≡ value
  pub addresses_are : p.involved_addresses ≡ addresses
  pub no_category : p.category ≡ none

parse_known-Describes :
    (info : MessageTypeInfo) (type_name : String) (value : Value) (addresses : List String)
    (p : ParsedMessage)
    → get_message_type_info type_name ≡ some info
    → parse_known info type_name value addresses ≡ some p
    → Describes type_name value addresses p
unfolding parse_known module_of
parse_known-Describes info type_name value addresses p found e =
    let (amount, extracted, made) = bind-eq-some (extract_amount value type_name) _ e in
    subst (Describes type_name value addresses) (some_inj made) (record {
      type_is = refl;
      module_is = rw (found, module_of);
      value_is = refl;
      addresses_are = refl;
      no_category = refl;
    })

parse_unknown-Describes :
    (type_name : String) (value : Value) (addresses : List String)
    → get_message_type_info type_name ≡ none
    → Describes type_name value addresses (parse_unknown type_name value addresses)
unfolding parse_unknown module_of
parse_unknown-Describes type_name value addresses missing = record {
  type_is = refl;
  module_is = rw (missing, module_of);
  value_is = refl;
  addresses_are = refl;
  no_category = refl;
}

-- Every answer carries the type, the body and the addresses that it was given, and the module that
-- the registry gives, or else the type's second part; none ever carries a category.
pub parse_message-Describes :
    (type_name : String) (value : Value) (addresses : List String) (p : ParsedMessage)
    → parse_message type_name value addresses ≡ some p
    → Describes type_name value addresses p
unfolding parse_message
parse_message-Describes type_name value addresses p e =
    elim (Option-cases (get_message_type_info type_name)) [
      | inl missing ↦
          subst (Describes type_name value addresses) (some_inj (rw (missing, parse_message) at e))
            (parse_unknown-Describes type_name value addresses missing)
      | inr (info, found) ↦
          parse_known-Describes info type_name value addresses p found
            (rw (found, parse_message) at e)
    ]

-- The types whose amount is handed on as the body has it.
abbrev pub direct_types : List String
direct_types =
    "cosmos.bank.v1beta1.MsgSend" ∷ "cosmos.gov.v1.MsgSubmitProposal" ∷ "cosmos.gov.v1.MsgDeposit"
    ∷ []

direct_members :
    (includes direct_types "cosmos.bank.v1beta1.MsgSend" ≡ true)
    × (includes direct_types "cosmos.gov.v1.MsgSubmitProposal" ≡ true)
    × (includes direct_types "cosmos.gov.v1.MsgDeposit" ≡ true)
unfolding includes
direct_members = (refl, refl, refl)

abbrev pub IsAmountList : Value → Type 0
IsAmountList v = (v ≡ undefined) ⊎ (is_array v ≡ true)

unless_empty-IsAmountList : (vs : List Value) → IsAmountList (unless_empty vs)
unless_empty-IsAmountList [] = inl refl
unless_empty-IsAmountList (v ∷ vs) = inr refl

wrap_truthy-IsAmountList :
    (b : Bool) (v : Value) → IsAmountList (if b then arr (cons v nil) else undefined)
wrap_truthy-IsAmountList true v = inr refl
wrap_truthy-IsAmountList false v = inl refl

array_or_wrapped-IsAmountList : (v : Value) → IsAmountList (array_or_wrapped v)
array_or_wrapped-IsAmountList (arr xs) = inr refl
array_or_wrapped-IsAmountList v = wrap_truthy-IsAmountList (truthy v) v

abbrev GivesList : Option Value → Type 0
GivesList o = (amount : Value) → o ≡ some amount → IsAmountList amount

GivesList-bind :
    (m : Option Value) (f : Value → Value)
    → ((v : Value) → IsAmountList (f v))
    → GivesList (m >>= λ v. some (f v))
GivesList-bind none f h amount e = absurd (cc)
GivesList-bind (some v) f h amount e = subst IsAmountList (some_inj e) (h v)

GivesList-multi_send :
    (m : Option Value) → GivesList (m >>= λ v. multi_send_coins v >>= λ vs. some (unless_empty vs))
GivesList-multi_send none amount e = absurd (cc)
GivesList-multi_send (some v) amount e =
    let (vs, made, same) = bind-eq-some (multi_send_coins v) _ e in
    subst IsAmountList (some_inj same) (unless_empty-IsAmountList vs)

GivesList-if :
    (b : Bool) (x y : Option Value)
    → (b ≡ true → GivesList x)
    → GivesList y
    → GivesList (if b then x else y)
GivesList-if true x y h k = h refl
GivesList-if false x y h k = k

-- A text outside a list is none of its members.
not-member :
    (xs : List String) (s member : String)
    → includes xs s ≡ false
    → includes xs member ≡ true
    → str_eq s member ≡ true
    → ⊥
not-member xs s member out here same =
    let e = (eq_iff s member).0 same in
    let clash : ◌≡◌ {A = Bool} false true = sym out ∙ ap (includes xs) e ∙ here in cc

-- But for the three types whose amount is handed on unseen, an amount is an array or missing.
pub extract_amount-IsAmountList :
    (value amount : Value) (type_name : String)
    → includes direct_types type_name ≡ false
    → extract_amount value type_name ≡ some amount
    → IsAmountList amount
unfolding extract_amount
extract_amount-IsAmountList value amount type_name other e =
    GivesList-if (str_eq type_name "cosmos.bank.v1beta1.MsgSend") _ _
      (λ same. absurd (not-member direct_types type_name _ other direct_members.0 same))
      (GivesList-if (str_eq type_name "cosmos.bank.v1beta1.MsgMultiSend") _ _
        (λ _. GivesList-multi_send (prop "inputs" value))
        (GivesList-if (includes delegation_types type_name) _ _
          (λ _.
            GivesList-bind (prop "amount" value) wrap_truthy
              (λ v. wrap_truthy-IsAmountList (truthy v) v))
          (GivesList-if (str_eq type_name "cosmos.gov.v1.MsgSubmitProposal") _ _
            (λ same. absurd (not-member direct_types type_name _ other direct_members.1 same))
            (GivesList-if (str_eq type_name "cosmos.gov.v1.MsgDeposit") _ _
              (λ same. absurd (not-member direct_types type_name _ other direct_members.2 same))
              (GivesList-bind (prop "amount" value) array_or_wrapped
                array_or_wrapped-IsAmountList)))))
      amount e
