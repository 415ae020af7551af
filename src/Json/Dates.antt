-- ===== src/Json/Dates.antt =====
-- common/utils/date-serializer.util.ts: every `Date` of a response becomes an ISO string.
pub mod Laws
use safrochain_indexer.Prelude.{
  String, Option, none, some, Bool, true, false, ◌||◌, ◌≡◌, ◌≢◌, map, if◌then◌else◌, str_eq,
}
use safrochain_indexer.Prelude.Int.{ℤ}
use safrochain_indexer.Json.Value.{
  Value, undefined, null, bool, num, str, date, arr, obj, Items, nil, cons, Fields, end, field,
}
use safrochain_indexer.Json.Text.{codes, to_lower_case, includes_codes}
use mathlib.Core.Option

-- What the code takes from `Date`: parsing is left to the engine by the language standard, but for
-- the one format that `toISOString` writes, which every engine reads back. No ISO text is empty.
pub record DateText : Type 0 where
  -- `new Date(text).getTime()`, none for NaN
  pub parse : String → Option ℤ
  -- `new Date(time).toISOString()`
  pub to_iso : ℤ → String
  pub parse-to_iso : (t : ℤ) → parse (to_iso t) ≡ some t
  pub to_iso-ne : (t : ℤ) → str_eq (to_iso t) "" ≡ false

-- The test on a key in `serializeDates`.
unfoldable pub is_date_key : String → Bool
unfolding to_lower_case includes_codes
is_date_key key =
    let lower = map to_lower_case (codes key) in
    includes_codes lower (codes "date")
    || (includes_codes lower (codes "time")
        || (includes_codes lower (codes "timestamp")
            || (includes_codes lower (codes "created")
                || (includes_codes lower (codes "updated")
                    || includes_codes lower (codes "jailed_until")))))

abbrev null_or_iso : (ℤ → String) → Option ℤ → Value
null_or_iso to_iso none = null
null_or_iso to_iso (some t) = str (to_iso t)

-- An exception in the first part of a list, or in the rest, is one of the whole.
abbrev join_items : Option Value → Option Items → Option Items
join_items (some v) (some vs) = some (cons v vs)
join_items _ _ = none

abbrev join_fields : String → Option Value → Option Fields → Option Fields
join_fields key (some v) (some fs) = some (field key v fs)
join_fields key _ _ = none

module _ (d : DateText) where
  -- `date.toISOString()`; none is the RangeError of an invalid `Date`.
  unfoldable pub to_iso_string : Option ℤ → Option Value
  to_iso_string t = Option.map (λ t. str (d.to_iso t)) t

  unfoldable pub serialize_date : Value → Option Value
  unfolding to_iso_string
  serialize_date (str s) = some (if str_eq s "" then null else null_or_iso d.to_iso (d.parse s))
  serialize_date (date t) = to_iso_string t
  serialize_date v = some null

  -- None when an invalid `Date` makes `toISOString` throw.
  unfoldable mutual
    unfolding to_iso_string

    pub serialize_dates : Value → Option Value
    serialize_dates (date t) = to_iso_string t
    serialize_dates (arr xs) = Option.map arr (serialize_items xs)
    serialize_dates (obj fs) = Option.map obj (serialize_fields fs)
    serialize_dates v = some v

    pub serialize_items : Items → Option Items
    serialize_items nil = some nil
    serialize_items (cons v vs) = join_items (serialize_dates v) (serialize_items vs)

    pub serialize_fields : Fields → Option Fields
    serialize_fields end = some end
    serialize_fields (field key v fs) =
        let walked = serialize_dates v in
        join_fields key (if is_date_key key then serialize_date v else walked) (serialize_fields fs)
