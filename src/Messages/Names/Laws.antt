-- ===== src/Messages/Names/Laws.antt =====
-- Splitting a message type at its dots undoes joining its parts, and what the label then is.
use Prim.Native.Char.{code}
use Prim.Native.String
use Prim.Native.String.{String}
use text.Mathlib.TextLemmas.{nil-append, cons-append}
use safrochain_indexer.Prelude.{false, List, [], ◌∷◌, ◌==◌, ◌≡◌, refl, ap, ◌∙◌, All}
use safrochain_indexer.Messages.Names.{
  split_dots, remove_first, extract_module_from_type, extract_label_from_type,
}

-- No character of the text is a dot.
abbrev pub IsDotless : String → Type 0
IsDotless String.[] = Unit
IsDotless (String.◌∷◌ c s) = ((code c == b'.') ≡ false) × IsDotless s

abbrev pub dot : String
dot = "."

-- The parts joined by dots.
unfoldable pub join_dots : String → List String → String
join_dots part [] = part
join_dots part (next ∷ parts) = String.◌++◌ part (String.◌++◌ dot (join_dots next parts))

split_dots-part :
    (part : String) (rest : String)
    → IsDotless part
    → split_dots (String.◌++◌ part (String.◌++◌ dot rest)) ≡ part ∷ split_dots rest
unfolding split_dots
split_dots-part String.[] rest h = rw (nil-append, cons-append, nil-append)
split_dots-part (String.◌∷◌ c s) rest (n, h) = rw cons-append (rw n (rw (split_dots-part s rest h)))

split_dots-last : (part : String) → IsDotless part → split_dots part ≡ part ∷ []
unfolding split_dots
split_dots-last String.[] h = refl
split_dots-last (String.◌∷◌ c s) (n, h) = rw n (rw (split_dots-last s h))

-- Splitting at the dots gives back the dotless parts that were joined.
pub split_dots-join_dots :
    (part : String) (parts : List String)
    → IsDotless part
    → All IsDotless parts
    → split_dots (join_dots part parts) ≡ part ∷ parts
unfolding join_dots
split_dots-join_dots part [] h k = split_dots-last part h
split_dots-join_dots part (next ∷ parts) h (k, ks) =
    split_dots-part part (join_dots next parts) h
    ∙ ap (λ r. part ∷ r) (split_dots-join_dots next parts k ks)

-- For a type of the form chain.module.version.Name, with more parts or none behind, the module is
-- the second part; the label is made from the version and does not depend on the name.
pub extract_label_from_type_version :
    (chain module_name version : String) (names : List String)
    → IsDotless chain
    → IsDotless module_name
    → IsDotless version
    → All IsDotless names
    → (let type_name = join_dots chain (module_name ∷ version ∷ names) in
        (extract_module_from_type type_name ≡ module_name)
        × (extract_label_from_type type_name ≡ remove_first "Msg" version))
unfolding extract_module_from_type extract_label_from_type
extract_label_from_type_version chain module_name version names h k l m =
    let e = split_dots-join_dots chain (module_name ∷ version ∷ names) h (k, (l, m)) in
    (rw (e, extract_module_from_type), rw (e, extract_label_from_type))
