-- ===== src/Messages/Listing/Laws.antt =====
-- The filters of a message request against what the request asks for.
use safrochain_indexer.Prelude.{
  ℕ, ◌≤◌, String, Option, none, some, Bool, true, List, [], ◌∷◌, leb, str_eq, all, ◌≡◌, ◌↔◌, ◌⊎◌,
  refl, sym, subst, arith, eq_iff, some_inj, Bool-cases, inl, inr, map,
}
use safrochain_indexer.DateFilters.Calendar.{Clock}
use safrochain_indexer.DateFilters.Conditions.{DateCondition, apply_date_filters}
use safrochain_indexer.Prelude.Sets.{includes, includes-append}
use safrochain_indexer.Transactions.Filters.{given_text, given_list}
use safrochain_indexer.Transactions.Filters.Laws.{all-when_given, and_part, given_part}
use safrochain_indexer.Messages.Types.{MessageCategory, MessageTypeInfo}
use safrochain_indexer.Messages.Registry.{get_message_type_info}
use safrochain_indexer.Messages.Registry.Laws.{
  get_message_types_by_module_iff, get_message_types_by_category_iff,
}
use safrochain_indexer.Messages.Listing.{
  MessageList, MessageCondition, type_is, type_in, involves, height_ge, height_le, value_like,
  module_types, modules_types, category_types, if_types, module_condition, category_condition,
  denom_pattern, message_filters, request_conditions, message_holds,
}
use safrochain_indexer.Entities.{Message}

-- A type that the registry has in a module, or in a category.
abbrev pub IsOfModule : String → String → Type 0
IsOfModule m name =
    (info : MessageTypeInfo) × (get_message_type_info name ≡ some info) × (info.module_name ≡ m)

abbrev pub IsOfCategory : MessageCategory → String → Type 0
IsOfCategory c name =
    (info : MessageTypeInfo) × (get_message_type_info name ≡ some info) × (info.category ≡ c)

module_types_iff : (m name : String) → (includes (module_types m) name ≡ true) ↔ IsOfModule m name
unfolding module_types
module_types_iff m name = get_message_types_by_module_iff m name

category_types_iff :
    (c : MessageCategory) (name : String)
    → (includes (category_types c) name ≡ true) ↔ IsOfCategory c name
unfolding category_types
category_types_iff c name = get_message_types_by_category_iff c name

abbrev pub IsOfSome : List String → String → Type 0
IsOfSome [] name = ⊥
IsOfSome (m ∷ ms) name = IsOfModule m name ⊎ IsOfSome ms name

modules_types_iff :
    (ms : List String) (name : String)
    → (includes (modules_types ms) name ≡ true) ↔ IsOfSome ms name
unfolding modules_types includes
modules_types_iff [] name = (λ h. absurd (cc), λ h. absurd h)
modules_types_iff (m ∷ ms) name =
    let split = includes-append (module_types m) (modules_types ms) name in
    let (to, from) = modules_types_iff ms name in
    (
      λ h. elim (Bool-cases (includes (module_types m) name)) [
        | inl here ↦ inl ((module_types_iff m name).0 here)
        | inr not_here ↦ inr (to (ground (arith, split)))
      ],
      λ o. elim o [
        | inl here ↦ ground (arith, split, (module_types_iff m name).1 here)
        | inr later ↦ ground (arith, split, from later)
      ],
    )

given_list_same : (ts us : List String) → given_list ts ≡ some us → ts ≡ us
given_list_same [] us e = absurd (cc)
given_list_same (x ∷ xs) us e = some_inj e

module _ (value_matches text_matches : String → Message → Bool) (f : MessageList)
    (m : Message) where
  abbrev meets : MessageCondition → Bool
  meets c = message_holds value_matches text_matches c m

  -- What a request asks of a message. A module or category without registered types asks nothing.
  pub record IsWanted : Type 0 where
    pub type_wanted : (t : String) → given_text f.type_name ≡ some t → m.type_name ≡ t
    pub types_wanted :
        (ts : List String) → given_list f.types ≡ some ts → includes ts m.type_name ≡ true
    pub module_wanted :
        (s : String) (ts : List String)
        → given_text f.module_name ≡ some s
        → given_list (module_types s) ≡ some ts
        → IsOfModule s m.type_name
    pub modules_wanted :
        (ts : List String)
        → given_list (modules_types f.modules) ≡ some ts
        → IsOfSome f.modules m.type_name
    pub category_wanted :
        (c : MessageCategory) (ts : List String)
        → f.category ≡ some c
        → given_list (category_types c) ≡ some ts
        → IsOfCategory c m.type_name
    pub address_wanted :
        (a : String)
        → given_text f.address ≡ some a
        → includes m.involved_accounts_addresses a ≡ true
    pub height_from : (n : ℕ) → f.height_from ≡ some n → n ≤ m.height
    pub height_to : (n : ℕ) → f.height_to ≡ some n → m.height ≤ n
    pub denom_wanted :
        (d : String) → given_text f.denom ≡ some d → value_matches (denom_pattern d) m ≡ true

  -- A filter by a list of types that is not empty.
  types_part :
      (ts : List String) (P : Type 0)
      → ((includes ts m.type_name ≡ true) ↔ P)
      → (all meets (if_types ts) ≡ true) ↔ ((us : List String) → given_list ts ≡ some us → P)
  unfolding message_holds
  types_part ts P (to, from) =
      let (given, back) = all-when_given meets (given_list ts) type_in in
      (
        λ h us e. to (
            subst (λ l. includes l m.type_name ≡ true) (sym (given_list_same ts us e))
              (given h us e)),
        λ k. back (λ us e.
            subst (λ l. includes l m.type_name ≡ true) (given_list_same ts us e) (from (k us e))),
      )

  module_part :
      (o : Option String)
      → (all meets (module_condition o) ≡ true) ↔ (
          (s : String) (ts : List String)
          → o ≡ some s
          → given_list (module_types s) ≡ some ts
          → IsOfModule s m.type_name)
  module_part none = (λ h s ts e. absurd (cc), λ h. refl)
  module_part (some s) =
      let (to, from) =
        types_part (module_types s) (IsOfModule s m.type_name) (module_types_iff s m.type_name) in
      (
        λ h s' ts e g.
            subst (λ u. IsOfModule u m.type_name) (some_inj e)
              (to h ts (subst (λ u. given_list (module_types u) ≡ some ts) (sym (some_inj e)) g)),
        λ k. from (λ ts g. k s ts refl g),
      )

  category_part :
      (o : Option MessageCategory)
      → (all meets (category_condition o) ≡ true) ↔ (
          (c : MessageCategory) (ts : List String)
          → o ≡ some c
          → given_list (category_types c) ≡ some ts
          → IsOfCategory c m.type_name)
  category_part none = (λ h s ts e. absurd (cc), λ h. refl)
  category_part (some c) =
      let (to, from) =
        types_part (category_types c) (IsOfCategory c m.type_name)
          (category_types_iff c m.type_name) in
      (
        λ h c' ts e g.
            subst (λ u. IsOfCategory u m.type_name) (some_inj e)
              (to h ts (subst (λ u. given_list (category_types u) ≡ some ts) (sym (some_inj e)) g)),
        λ k. from (λ ts g. k c ts refl g),
      )

  leb_iff : (a b : ℕ) → (leb a b ≡ true) ↔ (a ≤ b)
  leb_iff a b = ground arith

  type_meets : (t : String) → (meets (type_is t) ≡ true) ↔ (m.type_name ≡ t)
  unfolding message_holds
  type_meets t = (λ h. sym ((eq_iff t m.type_name).0 h), λ e. (eq_iff t m.type_name).1 (sym e))

  pub message_filters_iff : (all meets (message_filters f) ≡ true) ↔ IsWanted
  unfolding message_filters message_holds
  message_filters_iff =
      let (to, from) =
        and_part meets _ _
          (given_part meets (given_text f.type_name) type_is (λ t. m.type_name ≡ t) type_meets)
          (and_part meets _ _
            (types_part f.types (includes f.types m.type_name ≡ true) (λ h. h, λ h. h))
            (and_part meets _ _ (module_part (given_text f.module_name)) (
              and_part meets _ _
                (types_part (modules_types f.modules) (IsOfSome f.modules m.type_name)
                  (modules_types_iff f.modules m.type_name))
                (and_part meets _ _ (category_part f.category) (
                  and_part meets _ _
                    (given_part meets (given_text f.address) involves
                      (λ a. includes m.involved_accounts_addresses a ≡ true)
                      (λ a. (λ h. h, λ h. h)))
                    (and_part meets _ _
                      (given_part meets f.height_from height_ge (λ n. n ≤ m.height)
                        (λ n. leb_iff n m.height))
                      (and_part meets _ _
                        (given_part meets f.height_to height_le (λ n. m.height ≤ n)
                          (λ n. leb_iff m.height n))
                        (given_part meets (given_text f.denom) (λ d. value_like (denom_pattern d))
                          (λ d. value_matches (denom_pattern d) m ≡ true)
                          (λ d. (λ h. h, λ h. h)))))))))) in
      (
        λ h.
            let (a, (b, (c, (d, (e, (g, (i, (j, k)))))))) = to h in
            record {
              type_wanted = a;
              types_wanted = λ ts t.
                  subst (λ l. includes l m.type_name ≡ true) (given_list_same f.types ts t)
                    (b ts t);
              module_wanted = c;
              modules_wanted = d;
              category_wanted = e;
              address_wanted = g;
              height_from = i;
              height_to = j;
              denom_wanted = k;
            },
        λ w. from (
          w.type_wanted,
          (
            (λ ts t.
                subst (λ l. includes l m.type_name ≡ true) (sym (given_list_same f.types ts t))
                  (w.types_wanted ts t)),
            (
              w.module_wanted,
              (
                w.modules_wanted,
                (
                  w.category_wanted,
                  (w.address_wanted, (w.height_from, (w.height_to, (w.denom_wanted)))),
                ),
              ),
            ),
          ),
        ),
      )

  timestamps_part :
      (cs : List DateCondition) → (all meets (map MessageCondition.timestamp cs) ≡ true) ↔ (cs ≡ [])
  unfolding message_holds
  timestamps_part [] = (λ h. refl, λ e. refl)
  timestamps_part (c ∷ cs) = (λ h. absurd (cc), λ e. absurd (cc))

  -- A message meets all conditions of a request exactly when the request's dates add none and the
  -- message is what the request asks for: of the given type, of one of the given types, of the
  -- given module and of one of the given modules by the parser's registry, of the given category,
  -- with the given address and denomination, and within the given heights. A module or a category
  -- that has no registered type asks nothing, and whatever the two amounts say, the conditions are
  -- the same.
  pub request_conditions_iff :
      (clock : Clock)
      → ((all meets (request_conditions clock f) ≡ true)
          ↔ (IsWanted × (apply_date_filters clock f.dates ≡ [])))
        × ((lowest highest : Option String)
            → request_conditions clock (record f { amount_min = lowest; amount_max = highest })
              ≡ request_conditions clock f)
  unfolding request_conditions message_filters
  request_conditions_iff clock = (
    and_part meets _ _ message_filters_iff (timestamps_part (apply_date_filters clock f.dates)),
    λ lowest highest. refl,
  )

-- A request for a module that the registry does not know is answered as one that names no module:
-- with messages of every module.
pub message_filters_unknown :
    (f : MessageList) (m : String)
    → module_types m ≡ []
    → message_filters (record f { module_name = some m })
      ≡ message_filters (record f { module_name = none })
unfolding message_filters
message_filters_unknown f m none_known = elim (Bool-cases (str_eq m "")) [
  | inl e ↦ rw e refl
  | inr e ↦ rw (e, none_known) refl
]
