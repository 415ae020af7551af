-- ===== src/Json/Value.antt =====
-- A JavaScript value of the kinds that stand in the database's JSON columns and in a response.
-- Numbers are integers: the code that walks values never computes with one. A `Date` holds its
-- time value in milliseconds, or `none` if it is invalid. The properties of an object stand in the
-- order of `Object.entries`, and an array's indices, `"0"`, `"1"`, ..., are not written out.
use safrochain_indexer.Prelude.{
  String, Option, Bool, true, false, not, str_eq, if◌then◌else◌, ◌==◌, List, [], ◌∷◌,
}
use safrochain_indexer.Prelude.Int.{ℤ, pos, negsuc}

mutual
  -- The properties of an object.
  pub data Fields : Type 0 where
    field : String → Value → Fields → Fields
    end : Fields

  pub data Value : Type 0 where
    undefined : Value
    null : Value
    bool : Bool → Value
    num : ℤ → Value
    str : String → Value
    -- `new Date(...)`
    date : Option ℤ → Value
    obj : Fields → Value
    arr : Items → Value

  -- The elements of an array.
  pub data Items : Type 0 where
    cons : Value → Items → Items
    nil : Items

-- Whether `if (value)` is taken.
abbrev pub truthy : Value → Bool
truthy undefined = false
truthy null = false
truthy (bool b) = b
truthy (num (pos n)) = not (n == 0)
truthy (num (negsuc n)) = true
truthy (str s) = not (str_eq s "")
truthy (date t) = true
truthy (arr xs) = true
truthy (obj fs) = true

-- `fields[key]`, undefined if the key is missing.
unfoldable pub get_field : String → Fields → Value
get_field key end = undefined
get_field key (field k v fs) = if str_eq k key then v else get_field key fs

-- `value.key`: anything but an object has no such property.
unfoldable pub get : String → Value → Value
unfolding get_field
get key (obj fs) = get_field key fs
get key v = undefined

-- `value || fallback`
abbrev pub or_else : Value → Value → Value
or_else v fallback = if truthy v then v else fallback

unfoldable pub items_list : Items → List Value
items_list nil = []
items_list (cons v vs) = v ∷ items_list vs

unfoldable pub items_of : List Value → Items
items_of [] = nil
items_of (v ∷ vs) = cons v (items_of vs)

-- The strings of a list of values, where the code adds whatever it finds to a set of strings.
abbrev pub is_string : Value → Bool
is_string (str s) = true
is_string v = false
