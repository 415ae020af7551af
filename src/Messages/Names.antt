-- ===== src/Messages/Names.antt =====
-- `extractModuleFromType` and `extractLabelFromType`: the parts of a message type between dots.
pub mod Laws
use Prim.Native.Char.{Char, code}
use Prim.Native.String
use Prim.Native.String.{String}
use safrochain_indexer.Prelude.{
  ℕ, Option, none, some, Bool, true, false, List, [], ◌∷◌, ◌==◌, if◌then◌else◌,
}

-- The character in front of the first part.
abbrev pub cons_head : Char → List String → List String
cons_head c [] = []
cons_head c (s ∷ parts) = (String.◌∷◌ c s) ∷ parts

-- `text.split(".")`
unfoldable pub split_dots : String → List String
split_dots String.[] = String.[] ∷ []
split_dots (String.◌∷◌ c s) =
    if code c == b'.' then String.[] ∷ split_dots s else cons_head c (split_dots s)

-- The rest of a text past a part that it starts with.
unfoldable pub strip_start : String → String → Option String
strip_start String.[] text = some text
strip_start (String.◌∷◌ p part) String.[] = none
strip_start (String.◌∷◌ p part) (String.◌∷◌ c text) =
    if code p == code c then strip_start part text else none

-- `text.replace(part, "")`: the first occurrence is taken out.
unfoldable pub remove_first : String → String → String
unfolding strip_start
remove_first part String.[] = String.[]
remove_first part (String.◌∷◌ c text) =
    let later = String.◌∷◌ c (remove_first part text) in
    elim (strip_start part (String.◌∷◌ c text)) [ none ↦ later | some rest ↦ rest ]

unfoldable pub extract_module_from_type : String → String
unfolding split_dots
extract_module_from_type type_name = elim (split_dots type_name) [
  | first ∷ module_name ∷ rest ↦ module_name
  | _ ↦ "unknown"
]

unfoldable pub extract_label_from_type : String → String
unfolding split_dots remove_first
extract_label_from_type type_name = elim (split_dots type_name) [
  | first ∷ second ∷ third ∷ rest ↦ remove_first "Msg" third
  | _ ↦ "Unknown"
]
