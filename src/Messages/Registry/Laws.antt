-- ===== src/Messages/Registry/Laws.antt =====
-- The registry as a map, and its listings by module and by category.
use safrochain_indexer.Prelude.{
  String, Option, none, some, Bool, true, false, List, [], ◌∷◌, keep, str_eq, if◌then◌else◌, ◌≡◌,
  ◌↔◌, map, refl, arith, eq_iff, Bool-cases, inl, inr, some_inj, ◌∙◌, sym, subst,
}
use safrochain_indexer.Prelude.Sets.{includes, Distinct}
use safrochain_indexer.Messages.Types.{MessageCategory, MessageTypeInfo}
use safrochain_indexer.Messages.Registry.{
  add_message_type, message_types, lookup_type, get_message_type_info, get_message_types_by_module,
  same_category, get_message_types_by_category,
}

abbrev pub type_names : List MessageTypeInfo → List String
type_names types = map (λ t. t.type_name) types

-- Adding a type is a map update: its name then finds it, and every other name finds what it found.
pub lookup_type-add_message_type :
    (info : MessageTypeInfo) (types : List MessageTypeInfo) (name : String)
    → lookup_type name (add_message_type info types)
      ≡ (if str_eq info.type_name name then some info else lookup_type name types)
unfolding lookup_type add_message_type
lookup_type-add_message_type info [] name = refl
lookup_type-add_message_type info (t ∷ types) name = ground (
  arith,
  eq_iff t.type_name info.type_name,
  eq_iff t.type_name name,
  eq_iff info.type_name name,
  lookup_type-add_message_type info types name,
)

keep-absent :
    (p : MessageTypeInfo → Bool) (types : List MessageTypeInfo) (name : String)
    → includes (type_names types) name ≡ false
    → includes (type_names (keep p types)) name ≡ false
unfolding includes
keep-absent p [] name h = refl
keep-absent p (t ∷ types) name h = ground (arith, keep-absent p types name)

abbrev passes : (MessageTypeInfo → Bool) → Option MessageTypeInfo → Bool
passes p none = false
passes p (some info) = p info

-- In a registry without duplicates a listing holds just the names whose entry passes its test.
includes-keep :
    (p : MessageTypeInfo → Bool) (types : List MessageTypeInfo) (name : String)
    → Distinct (type_names types)
    → includes (type_names (keep p types)) name ≡ passes p (lookup_type name types)
unfolding includes lookup_type
includes-keep p [] name d = refl
includes-keep p (t ∷ types) name (n, d) = elim (Bool-cases (str_eq t.type_name name)) [
  | inl e ↦
      let same = (eq_iff t.type_name name).0 e in
      rw e (
        ground (
          arith,
          keep-absent p types name (subst (λ s. includes (type_names types) s ≡ false) same n),
        ))
  | inr e ↦ rw e (ground (arith, includes-keep p types name d))
]

passes_iff :
    (p : MessageTypeInfo → Bool) (o : Option MessageTypeInfo)
    → (passes p o ≡ true) ↔ ((info : MessageTypeInfo) × (o ≡ some info) × (p info ≡ true))
passes_iff p none = (λ h. absurd (cc), λ h. absurd (cc))
passes_iff p (some info) =
    ((λ h. (info, refl, h)), λ (i, e, h). subst (λ i. p i ≡ true) (sym (some_inj e)) h)

message_types-Distinct : Distinct (type_names message_types)
unfolding message_types includes
message_types-Distinct = ground arith

-- A module's listing holds exactly the registered types of that module.
pub get_message_types_by_module_iff :
    (module_name name : String)
    → (includes (type_names (get_message_types_by_module module_name)) name ≡ true) ↔ (
        (info : MessageTypeInfo) × (get_message_type_info name ≡ some info)
        × (info.module_name ≡ module_name))
unfolding get_message_types_by_module get_message_type_info
get_message_types_by_module_iff module_name name =
    let e =
      includes-keep (λ t. str_eq t.module_name module_name) message_types name
        message_types-Distinct in
    let (to, from) =
      passes_iff (λ t. str_eq t.module_name module_name) (lookup_type name message_types) in
    (
      λ h. let (info, found, same) = to (sym e ∙ h) in (info, found, (eq_iff _ _).0 same),
      λ (info, found, same). e ∙ from (info, found, (eq_iff _ _).1 same),
    )

same_category_iff : (a b : MessageCategory) → (same_category a b ≡ true) ↔ (a ≡ b)
same_category_iff a b = ground arith

-- A category's listing holds exactly the registered types of that category, so every registered
-- type is listed under one category and no other.
pub get_message_types_by_category_iff :
    (category : MessageCategory) (name : String)
    → (includes (type_names (get_message_types_by_category category)) name ≡ true) ↔ (
        (info : MessageTypeInfo) × (get_message_type_info name ≡ some info)
        × (info.category ≡ category))
unfolding get_message_types_by_category get_message_type_info
get_message_types_by_category_iff category name =
    let e =
      includes-keep (λ t. same_category t.category category) message_types name
        message_types-Distinct in
    let (to, from) =
      passes_iff (λ t. same_category t.category category) (lookup_type name message_types) in
    (
      λ h.
          let (info, found, same) = to (sym e ∙ h) in (info, found, (same_category_iff _ _).0 same),
      λ (info, found, same). e ∙ from (info, found, (same_category_iff _ _).1 same),
    )

lookup_type-name :
    (name : String) (types : List MessageTypeInfo) (info : MessageTypeInfo)
    → lookup_type name types ≡ some info
    → info.type_name ≡ name
unfolding lookup_type
lookup_type-name name [] info e = absurd (cc)
lookup_type-name name (t ∷ types) info e =
    ground (arith, eq_iff t.type_name name, lookup_type-name name types info)

-- An entry found under a name is the entry of that name.
pub get_message_type_info-type_name :
    (name : String) (info : MessageTypeInfo)
    → get_message_type_info name ≡ some info
    → info.type_name ≡ name
unfolding get_message_type_info
get_message_type_info-type_name name info e = lookup_type-name name message_types info e
