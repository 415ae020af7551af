-- ===== src/Json/Dates/Laws.antt =====
-- What `serializeDates` leaves of a response.
use safrochain_indexer.Prelude.{
  String, Option, none, some, Bool, true, false, ◌||◌, ◌≡◌, if◌then◌else◌, str_eq, arith, refl, ap,
  List, [], ◌∷◌, some_inj, map-eq-some, subst, sym, or-eq-false,
}
use mathlib.Core.Option
use safrochain_indexer.Prelude.Int.{ℤ}
use safrochain_indexer.Json.Value.{
  Value, null, str, date, arr, obj, Items, nil, cons, Fields, end, field,
}
use safrochain_indexer.Json.Dates.{
  DateText, is_date_key, null_or_iso, serialize_date, join_items, join_fields, serialize_dates,
  serialize_items, serialize_fields,
}

-- A value with no `Date` object left: what `JSON.stringify` writes without help.
unfoldable mutual
  pub is_plain : Value → Bool
  is_plain (date t) = false
  is_plain (arr xs) = is_plain_items xs
  is_plain (obj fs) = is_plain_fields fs
  is_plain v = true

  pub is_plain_items : Items → Bool
  is_plain_items nil = true
  is_plain_items (cons v vs) = if is_plain v then is_plain_items vs else false

  pub is_plain_fields : Fields → Bool
  is_plain_fields end = true
  is_plain_fields (field key v fs) = if is_plain v then is_plain_fields fs else false

-- Whether an invalid `Date` stands anywhere in a value.
unfoldable mutual
  pub has_invalid : Value → Bool
  has_invalid (date none) = true
  has_invalid (date (some t)) = false
  has_invalid (arr xs) = has_invalid_items xs
  has_invalid (obj fs) = has_invalid_fields fs
  has_invalid v = false

  pub has_invalid_items : Items → Bool
  has_invalid_items nil = false
  has_invalid_items (cons v vs) = has_invalid v || has_invalid_items vs

  pub has_invalid_fields : Fields → Bool
  has_invalid_fields end = false
  has_invalid_fields (field key v fs) = has_invalid v || has_invalid_fields fs

-- The keys of an object, in order.
unfoldable pub keys : Fields → List String
keys end = []
keys (field key v fs) = key ∷ keys fs

module _ (d : DateText) where
  is_plain-serialize_date : (v w : Value) → serialize_date d v ≡ some w → is_plain w ≡ true
  unfolding serialize_date is_plain
  is_plain-serialize_date (str s) w e = ground arith
  is_plain-serialize_date (date t) w e = ground arith
  is_plain-serialize_date v w e = ground arith

  iso_fixed : (t : ℤ) → serialize_date d (str (d.to_iso t)) ≡ some (str (d.to_iso t))
  unfolding serialize_date
  iso_fixed t = rw (d.to_iso-ne t, d.parse-to_iso t)

  picked_fixed :
      (b : Bool) (o : Option ℤ)
      → (let v = if b then null else null_or_iso d.to_iso o in serialize_date d v ≡ some v)
  unfolding serialize_date
  picked_fixed true o = refl
  picked_fixed false none = refl
  picked_fixed false (some t) = iso_fixed t

  -- A second pass leaves what the first made of one date.
  serialize_date_idem : (v w : Value) → serialize_date d v ≡ some w → serialize_date d w ≡ some w
  unfolding serialize_date
  serialize_date_idem (str s) w e =
      subst (λ w. serialize_date d w ≡ some w) (some_inj e) (picked_fixed (str_eq s "") (d.parse s))
  serialize_date_idem (date none) w e = absurd (cc)
  serialize_date_idem (date (some t)) w e =
      subst (λ w. serialize_date d w ≡ some w) (some_inj e) (iso_fixed t)
  serialize_date_idem v w e = ground arith

  join_fields_inv :
      (key : String) (a : Option Value) (b : Option Fields) (fs : Fields)
      → join_fields key a b ≡ some fs
      → (v : Value) × (rest : Fields) × (a ≡ some v) × (b ≡ some rest) × (field key v rest ≡ fs)
  join_fields_inv key (some v) (some rest) fs e = (v, rest, refl, refl, some_inj e)
  join_fields_inv key none b fs e = absurd (cc)
  join_fields_inv key (some v) none fs e = absurd (cc)

  join_items_inv :
      (a : Option Value) (b : Option Items) (vs : Items)
      → join_items a b ≡ some vs
      → (v : Value) × (rest : Items) × (a ≡ some v) × (b ≡ some rest) × (cons v rest ≡ vs)
  join_items_inv (some v) (some rest) vs e = (v, rest, refl, refl, some_inj e)
  join_items_inv none b vs e = absurd (cc)
  join_items_inv (some v) none vs e = absurd (cc)

  field_plain :
      (b : Bool) (v w : Value)
      → (if b then serialize_date d v else serialize_dates d v) ≡ some w
      → ((w : Value) → serialize_dates d v ≡ some w → is_plain w ≡ true)
      → is_plain w ≡ true
  field_plain true v w e ih = is_plain-serialize_date v w e
  field_plain false v w e ih = ih w e

  mutual
    unfolding serialize_dates is_plain

    is_plain_dates : (v w : Value) → serialize_dates d v ≡ some w → is_plain w ≡ true
    is_plain_dates (date t) w e = ground arith
    is_plain_dates (arr xs) w e =
        let (ys, found, same) = map-eq-some arr (serialize_items d xs) w e in
        rw (← same) (is_plain_dates_items xs ys found)
    is_plain_dates (obj fs) w e =
        let (gs, found, same) = map-eq-some obj (serialize_fields d fs) w e in
        rw (← same) (is_plain_dates_fields fs gs found)
    is_plain_dates v w e = ground arith

    is_plain_dates_items :
        (vs ws : Items) → serialize_items d vs ≡ some ws → is_plain_items ws ≡ true
    is_plain_dates_items nil ws e = ground arith
    is_plain_dates_items (cons v vs) ws e =
        let (w, rest, found, later, same) =
          join_items_inv (serialize_dates d v) (serialize_items d vs) ws e in
        rw (← same, is_plain_dates v w found) (is_plain_dates_items vs rest later)

    is_plain_dates_fields :
        (fs gs : Fields) → serialize_fields d fs ≡ some gs → is_plain_fields gs ≡ true
    is_plain_dates_fields end gs e = ground arith
    is_plain_dates_fields (field key v fs) gs e =
        let (w, rest, found, later, same) =
          join_fields_inv key (if is_date_key key then serialize_date d v else serialize_dates d v)
            (serialize_fields d fs) gs e in
        rw (← same, field_plain (is_date_key key) v w found (is_plain_dates v))
          (is_plain_dates_fields fs rest later)

  field_idem :
      (b : Bool) (v w : Value)
      → (if b then serialize_date d v else serialize_dates d v) ≡ some w
      → ((w : Value) → serialize_dates d v ≡ some w → serialize_dates d w ≡ some w)
      → (if b then serialize_date d w else serialize_dates d w) ≡ some w
  field_idem true v w e ih = serialize_date_idem v w e
  field_idem false v w e ih = ih w e

  mutual
    unfolding serialize_dates

    idem : (v w : Value) → serialize_dates d v ≡ some w → serialize_dates d w ≡ some w
    idem (date t) w e = ground arith
    idem (arr xs) w e =
        let (ys, found, same) = map-eq-some arr (serialize_items d xs) w e in
        rw (← same) (ap (Option.map arr) (idem_items xs ys found))
    idem (obj fs) w e =
        let (gs, found, same) = map-eq-some obj (serialize_fields d fs) w e in
        rw (← same) (ap (Option.map obj) (idem_fields fs gs found))
    idem v w e = ground arith

    idem_items : (vs ws : Items) → serialize_items d vs ≡ some ws → serialize_items d ws ≡ some ws
    idem_items nil ws e = ground arith
    idem_items (cons v vs) ws e =
        let (w, rest, found, later, same) =
          join_items_inv (serialize_dates d v) (serialize_items d vs) ws e in
        rw (← same) (rw (idem v w found, idem_items vs rest later))

    idem_fields :
        (fs gs : Fields) → serialize_fields d fs ≡ some gs → serialize_fields d gs ≡ some gs
    idem_fields end gs e = ground arith
    idem_fields (field key v fs) gs e =
        let (w, rest, found, later, same) =
          join_fields_inv key (if is_date_key key then serialize_date d v else serialize_dates d v)
            (serialize_fields d fs) gs e in
        rw (← same)
          (rw (field_idem (is_date_key key) v w found (idem v), idem_fields fs rest later))

  keys-serialize_fields : (fs gs : Fields) → serialize_fields d fs ≡ some gs → keys gs ≡ keys fs
  unfolding serialize_dates keys
  keys-serialize_fields end gs e = ground arith
  keys-serialize_fields (field key v fs) gs e =
      let (w, rest, found, later, same) =
        join_fields_inv key (if is_date_key key then serialize_date d v else serialize_dates d v)
          (serialize_fields d fs) gs e in
      rw (← same) (ap (λ ks. key ∷ ks) (keys-serialize_fields fs rest later))

  date_total : (v : Value) → has_invalid v ≡ false → (w : Value) × (serialize_date d v ≡ some w)
  unfolding serialize_date has_invalid
  date_total (date none) h = absurd (cc)
  date_total (date (some t)) h = (_, refl)
  date_total (str s) h = (_, refl)
  date_total v h = (_, refl)

  field_total :
      (b : Bool) (v : Value)
      → has_invalid v ≡ false
      → (w : Value) × (serialize_dates d v ≡ some w)
      → (w : Value) × ((if b then serialize_date d v else serialize_dates d v) ≡ some w)
  field_total true v h found = date_total v h
  field_total false v h found = found

  mutual
    unfolding serialize_dates has_invalid

    total : (v : Value) → has_invalid v ≡ false → (w : Value) × (serialize_dates d v ≡ some w)
    total (date none) h = absurd (cc)
    total (date (some t)) h = (_, refl)
    total (arr xs) h = let (ys, e) = total_items xs h in (arr ys, ap (Option.map arr) e)
    total (obj fs) h = let (gs, e) = total_fields fs h in (obj gs, ap (Option.map obj) e)
    total v h = (_, refl)

    total_items :
        (vs : Items)
        → has_invalid_items vs ≡ false
        → (ws : Items) × (serialize_items d vs ≡ some ws)
    total_items nil h = (nil, refl)
    total_items (cons v vs) h =
        let (here, later) = or-eq-false (has_invalid v) (has_invalid_items vs) h in
        let (w, e) = total v here in let (ws, es) = total_items vs later in (cons w ws, rw (e, es))

    total_fields :
        (fs : Fields)
        → has_invalid_fields fs ≡ false
        → (gs : Fields) × (serialize_fields d fs ≡ some gs)
    total_fields end h = (end, refl)
    total_fields (field key v fs) h =
        let (here, later) = or-eq-false (has_invalid v) (has_invalid_fields fs) h in
        let (w, e) = field_total (is_date_key key) v here (total v here) in
        let (gs, es) = total_fields fs later in (field key w gs, rw (e, es))

  -- What `serializeDates` returns has no `Date` object at any depth.
  pub is_plain-serialize_dates : (v w : Value) → serialize_dates d v ≡ some w → is_plain w ≡ true
  is_plain-serialize_dates v w e = is_plain_dates v w e

  -- A second pass over a serialized value changes nothing.
  pub serialize_dates_idem :
      (v w : Value) → serialize_dates d v ≡ some w → serialize_dates d w ≡ some w
  serialize_dates_idem v w e = idem v w e

  -- An object comes back as an object with the same keys in the same order.
  pub keys-serialize_dates :
      (fs : Fields) (w : Value)
      → serialize_dates d (obj fs) ≡ some w
      → (gs : Fields) × (w ≡ obj gs) × (keys gs ≡ keys fs)
  unfolding serialize_dates
  keys-serialize_dates fs w e =
      let (gs, found, same) = map-eq-some obj (serialize_fields d fs) w e in
      (gs, sym same, keys-serialize_fields fs gs found)

  -- Serializing fails for no value in which every `Date` is valid.
  pub serialize_dates_total :
      (v : Value) → has_invalid v ≡ false → (w : Value) × (serialize_dates d v ≡ some w)
  serialize_dates_total v h = total v h
