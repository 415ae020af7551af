-- ===== src/Messages/Involved/Laws.antt =====
-- What `extractInvolvedAddresses` finds in the body of a message.
use safrochain_indexer.Prelude.{
  String, some, Bool, true, false, not, ◌&&◌, ◌||◌, List, [], ◌∷◌, keep, str_eq, ◌≡◌, ◌↔◌, refl, ap,
  sym, ◌∙◌, arith, eq_iff, Bool-cases, inl, inr, map-eq-some, some_inj,
}
use safrochain_indexer.Prelude.Int.{pos, negsuc}
use safrochain_indexer.Paging.Query.{once}
use safrochain_indexer.Json.Value.{Value, str, bool, num, obj, Fields, get_field, get, truthy}
use safrochain_indexer.Messages.Parser.{prop}
use safrochain_indexer.Messages.Involved.Roles.{
  is_text, names_text, takes_part, involved_fields-takes_part,
}
use safrochain_indexer.Messages.Involved.{
  multi_send, involved_fields, push_truthy, push_fields, same_value, extract_involved_addresses,
}

unfoldable pub has_text : String → List Value → Bool
has_text a [] = false
has_text a (v ∷ vs) = is_text a v || has_text a vs

other_value :
    (a : String) (r s : Value) → is_text a s ≡ true → is_text a r ≡ false → same_value r s ≡ false
unfolding same_value
other_value a (str x) (str y) h k = ground (arith, eq_iff x y, eq_iff y a, eq_iff x a)
other_value a (bool true) (str y) h k = refl
other_value a (bool false) (str y) h k = refl
other_value a (num (pos n)) (str y) h k = refl
other_value a (num (negsuc n)) (str y) h k = refl
other_value a r (str y) h k = refl
other_value a r s h k = absurd (cc)

has_text-keep :
    (a : String) (r : Value) (vs : List Value)
    → is_text a r ≡ false
    → has_text a (keep (λ s. not (same_value r s)) vs) ≡ has_text a vs
unfolding has_text
has_text-keep a r [] h = refl
has_text-keep a r (s ∷ vs) h = elim (Bool-cases (is_text a s)) [
  | inl e ↦ rw (other_value a r s e h, e) refl
  | inr e ↦ ground (arith, has_text-keep a r vs h)
]

has_text-once : (a : String) (vs : List Value) → has_text a (once same_value vs) ≡ has_text a vs
unfolding has_text once
has_text-once a [] = refl
has_text-once a (v ∷ vs) = elim (Bool-cases (is_text a v)) [
  | inl e ↦ rw e refl
  | inr e ↦ rw e (has_text-keep a v (once same_value vs) e ∙ has_text-once a vs)
]

has_text-push_truthy :
    (a : String) (v : Value) (rest : List Value)
    → has_text a (push_truthy v rest) ≡ ((truthy v && is_text a v) || has_text a rest)
unfolding has_text
has_text-push_truthy a v rest = ground arith

has_text-push_fields :
    (a : String) (names : List String) (fs : Fields) (vs : List Value)
    → push_fields names (obj fs) ≡ some vs
    → has_text a vs ≡ names_text a names fs
unfolding push_fields prop get names_text
has_text-push_fields a [] fs vs e = ap (has_text a) (sym (some_inj e)) ∙ (unfold has_text in refl)
has_text-push_fields a (name ∷ names) fs vs e =
    let v = get_field name fs in
    let (rest, found, made) = map-eq-some (push_truthy v) (push_fields names (obj fs)) vs e in
    ap (has_text a) (sym made)
    ∙ has_text-push_truthy a v rest
    ∙ ap (λ b. (truthy v && is_text a v) || b) (has_text-push_fields a names fs rest found)

-- For every type but a multi-send, an address is found in the body of a message exactly when it is
-- not empty and the body names it in one of the roles of the type: as the voter of a vote, as
-- delegator or validator of a delegation, and so on; or, for a type without roles of its own,
-- under one of the common properties.
pub extract_involved_addresses_iff :
    (fs : Fields) (type_name a : String) (found : List Value)
    → str_eq type_name multi_send ≡ false
    → extract_involved_addresses (obj fs) type_name ≡ some found
    → (has_text a found ≡ true) ↔ (takes_part a type_name fs ≡ true)
unfolding extract_involved_addresses
extract_involved_addresses_iff fs type_name a found other e =
    let (vs, pushed, made) = map-eq-some (once same_value) _ found (rw other at e) in
    let same =
      ap (has_text a) (sym made)
      ∙ has_text-once a vs
      ∙ has_text-push_fields a (involved_fields type_name) fs vs pushed
      ∙ involved_fields-takes_part a type_name fs in
    (λ h. sym same ∙ h, λ h. same ∙ h)
