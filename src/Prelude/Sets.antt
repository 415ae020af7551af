-- ===== src/Prelude/Sets.antt =====
-- A JavaScript `Set` of strings: an array in insertion order with no value twice.
use Prim.Native.String.{String}
use mathlib.Core.Path.{◌≡◌, refl}
use mathlib.Core.Bool.{Bool, false, ◌||◌}
use mathlib.Core.List.{List, [], ◌∷◌, ◌++◌}
use native.Mathlib.Omega.{arith}
use text.Mathlib.Text.{◌==◌}
use text.Mathlib.TextEquality.{eq_iff}
use safrochain_indexer.Prelude.Tests.{if◌then◌else◌}

-- `array.includes(a)` and `set.has(a)`
unfoldable pub includes : List String → String → Bool
includes [] a = false
includes (x ∷ xs) a = x == a || includes xs a

-- `set.add(a)`
unfoldable pub add : List String → String → List String
unfolding includes
add s a = if includes s a then s else s ++ a ∷ []

-- `xs.forEach((a) => set.add(a))`
unfoldable pub add_all : List String → List String → List String
unfolding add
add_all s [] = s
add_all s (x ∷ xs) = add_all (add s x) xs

-- `[...new Set(xs)]`
unfoldable pub unique : List String → List String
unfolding add_all
unique xs = add_all [] xs

-- No value stands twice.
abbrev pub Distinct : List String → Type 0
Distinct [] = Unit
Distinct (x ∷ xs) = (includes xs x ≡ false) × Distinct xs

or_assoc : (a b c : Bool) → ((a || b) || c) ≡ (a || (b || c))
or_assoc a b c = ground arith

pub includes-append :
    (xs ys : List String) (a : String) → includes (xs ++ ys) a ≡ (includes xs a || includes ys a)
unfolding includes
includes-append [] ys a = refl
includes-append (x ∷ xs) ys a = ground (arith, includes-append xs ys a)

pub includes-add :
    (s : List String) (a b : String) → includes (add s a) b ≡ (includes s b || a == b)
unfolding add includes
includes-add s a b = ground (arith, includes-append s (a ∷ []) b, eq_iff a b)

pub Distinct-concat :
    (s : List String) (a : String) → includes s a ≡ false → Distinct s → Distinct (s ++ a ∷ [])
unfolding includes
Distinct-concat [] a h d = (refl, tt)
Distinct-concat (x ∷ xs) a h (n, d) = (
  ground (arith, includes-append xs (a ∷ []) x, eq_iff a x, eq_iff x a),
  Distinct-concat xs a (ground arith) d,
)

pub Distinct-add : (s : List String) (a : String) → Distinct s → Distinct (add s a)
unfolding add
Distinct-add s a d = ground (arith, Distinct-concat s a)

-- A loop of `add` holds what the set held and what was added.
pub includes-add_all :
    (s xs : List String) (b : String) → includes (add_all s xs) b ≡ (includes s b || includes xs b)
unfolding add_all includes
includes-add_all s [] b = ground arith
includes-add_all s (x ∷ xs) b = ground (arith, includes-add_all (add s x) xs b, includes-add s x b)

pub Distinct-add_all : (s xs : List String) → Distinct s → Distinct (add_all s xs)
unfolding add_all
Distinct-add_all s [] d = d
Distinct-add_all s (x ∷ xs) d = Distinct-add_all (add s x) xs (Distinct-add s x d)

-- `[...new Set(xs)]` has the members of `xs`.
pub includes-unique : (xs : List String) (b : String) → includes (unique xs) b ≡ includes xs b
unfolding unique includes
includes-unique xs b = includes-add_all [] xs b

pub Distinct-unique : (xs : List String) → Distinct (unique xs)
unfolding unique
Distinct-unique xs = Distinct-add_all [] xs tt
