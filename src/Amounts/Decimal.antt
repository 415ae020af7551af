-- ===== src/Amounts/Decimal.antt =====
-- Decimal texts: an implementation of the `BigInts` interface, by which the theorems over it are
-- applied to concrete amounts.
use Prim.Native.Char.{Char, code}
use Prim.Native.String.{String}
use safrochain_indexer.Prelude.{
  ℕ, zero, suc, ◌+◌, ◌-◌, ◌*◌, ◌/◌, ◌%◌, ◌<◌, Option, none, some, ◌&&◌, ltb, leb, ◌==◌,
  if◌then◌else◌, ◌≡◌, refl, ap, ◌∙◌, arith, Bool-cases, inl, inr, ltb→lt,
}
use safrochain_indexer.Prelude.Int.{ℤ, pos, negsuc}
use safrochain_indexer.Amounts.{BigInts}
use mathlib.Core.Option

digit_char : ℕ → Char
digit_char zero = "0"
digit_char (suc zero) = "1"
digit_char (suc (suc zero)) = "2"
digit_char (suc (suc (suc zero))) = "3"
digit_char (suc (suc (suc (suc zero)))) = "4"
digit_char (suc (suc (suc (suc (suc zero))))) = "5"
digit_char (suc (suc (suc (suc (suc (suc zero)))))) = "6"
digit_char (suc (suc (suc (suc (suc (suc (suc zero))))))) = "7"
digit_char (suc (suc (suc (suc (suc (suc (suc (suc zero)))))))) = "8"
digit_char (suc (suc (suc (suc (suc (suc (suc (suc (suc n))))))))) = "9"

parse_digits : ℕ → String → Option ℕ
parse_digits v String.[] = some v
parse_digits v (String.◌∷◌ c s) =
    let rest = parse_digits (v * 10 + (code c - 48)) s in
    if leb 48 (code c) && leb (code c) 57 then rest else none

print_digits : ℕ → ℕ → String → String
print_digits zero n acc = acc
print_digits (suc fuel) n acc =
    let rest = print_digits fuel (n / 10) (String.◌∷◌ (digit_char (n % 10)) acc) in
    if ltb n 10 then String.◌∷◌ (digit_char n) acc else rest

parse_digits-digit :
    (d v : ℕ) (s : String)
    → d < 10
    → parse_digits v (String.◌∷◌ (digit_char d) s) ≡ parse_digits (v * 10 + d) s
unfolding parse_digits digit_char
parse_digits-digit zero v s h = refl
parse_digits-digit (suc zero) v s h = refl
parse_digits-digit (suc (suc zero)) v s h = refl
parse_digits-digit (suc (suc (suc zero))) v s h = refl
parse_digits-digit (suc (suc (suc (suc zero)))) v s h = refl
parse_digits-digit (suc (suc (suc (suc (suc zero))))) v s h = refl
parse_digits-digit (suc (suc (suc (suc (suc (suc zero)))))) v s h = refl
parse_digits-digit (suc (suc (suc (suc (suc (suc (suc zero))))))) v s h = refl
parse_digits-digit (suc (suc (suc (suc (suc (suc (suc (suc zero)))))))) v s h = refl
parse_digits-digit (suc (suc (suc (suc (suc (suc (suc (suc (suc zero))))))))) v s h = refl
parse_digits-digit (suc (suc (suc (suc (suc (suc (suc (suc (suc (suc d)))))))))) v s h =
    absurd (omega arith)

parse_digits-print_digits :
    (fuel n : ℕ) (acc : String)
    → n < fuel
    → parse_digits 0 (print_digits fuel n acc) ≡ parse_digits n acc
unfolding print_digits
parse_digits-print_digits zero n acc h = absurd (omega arith)
parse_digits-print_digits (suc fuel) n acc h = elim (Bool-cases (ltb n 10)) [
  | inl small ↦
      rw small (
        parse_digits-digit n 0 acc (ltb→lt n 10 small) ∙ ap (λ k. parse_digits k acc) (omega arith))
  | inr large ↦ rw large (
      parse_digits-print_digits fuel (n / 10) _ (ground arith)
      ∙ parse_digits-digit (n % 10) (n / 10) acc (omega arith)
      ∙ ap (λ k. parse_digits k acc) (omega arith))
]

print_nat : ℕ → String
print_nat n = print_digits (suc n) n String.[]

unfoldable pub print_int : ℤ → String
unfolding print_nat print_digits digit_char
print_int (pos n) = print_nat n
print_int (negsuc n) = String.◌∷◌ "-" (print_nat (suc n))

negated : ℕ → ℤ
negated zero = pos 0
negated (suc n) = negsuc n

parse_negative : String → Option ℤ
parse_negative String.[] = none
parse_negative (String.◌∷◌ c s) =
    if code c == 45 then Option.map negated (parse_digits 0 s) else none

unfoldable pub parse_int : String → Option ℤ
unfolding parse_digits parse_negative negated
parse_int s = elim (parse_digits 0 s) [ some n ↦ some (pos n) | none ↦ parse_negative s ]

parse_digits-print_nat : (n : ℕ) → parse_digits 0 (print_nat n) ≡ some n
unfolding print_nat parse_digits
parse_digits-print_nat n = parse_digits-print_digits (suc n) n String.[] (omega arith)

pub parse_int-print_int : (z : ℤ) → parse_int (print_int z) ≡ some z
unfolding parse_int print_int parse_negative negated parse_digits
parse_int-print_int (pos n) = rw (parse_digits-print_nat n, parse_int)
parse_int-print_int (negsuc n) = rw (parse_digits-print_nat (suc n), parse_int)

pub parse_int_zero : parse_int "0" ≡ some (pos 0)
unfolding parse_int parse_digits
parse_int_zero = refl

abbrev pub decimal : BigInts
decimal = record {
  parse = parse_int;
  print = print_int;
  parse-print = parse_int-print_int;
  parse_zero = parse_int_zero;
}
