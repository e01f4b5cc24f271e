-- ===== src/Strconv.antt =====
-- The functions of Go's `strconv` package that the program calls.
pub mod Laws
use gonesis.Prelude.{
  ℕ, zero, suc, ◌+◌, ◌-◌, ◌*◌, ◌/◌, ◌%◌, ◌^◌, Text, Bool, true, false, ◌&&◌, Option, none, some,
  List, [], ◌∷◌, ◌++◌, if◌then◌else◌, ◌==◌, leb, ltb, ℤ, pos, negsuc,
}

-- One decimal digit a round; `suc n` rounds are enough for `n`.
unfoldable pub digits : ℕ → ℕ → Text
digits zero n = []
digits (suc f) n =
    let rest = digits f (n / 10) ++ ((48 + n % 10) ∷ []) in if ltb n 10 then (48 + n) ∷ [] else rest

-- strconv.Itoa of a number that is not negative
unfoldable pub itoa : ℕ → Text
unfolding digits
itoa n = digits (suc n) n

-- strconv.FormatInt(n, 10)
unfoldable pub format_int : ℤ → Text
unfolding itoa
format_int (pos n) = itoa n
format_int (negsuc n) = b'-' ∷ itoa (suc n)

unfoldable pub is_digit : ℕ → Bool
is_digit c = leb 48 c && leb c 57

-- The number that the digits stand for, after those whose number is `n`.
unfoldable pub parse_digits : ℕ → Text → Option ℕ
unfolding is_digit
parse_digits n [] = some n
parse_digits n (c ∷ s) =
    let rest = parse_digits (n * 10 + (c - 48)) s in if is_digit c then rest else none

unfoldable pub parse_unsigned : Text → Option ℕ
unfolding parse_digits
parse_unsigned [] = none
parse_unsigned (c ∷ s) = parse_digits 0 (c ∷ s)

unfoldable pub positive : Option ℕ → Option ℤ
positive none = none
positive (some n) = if ltb n (2 ^ 63) then some (pos n) else none

-- "-0" is 0.
abbrev negated : ℕ → ℤ
negated zero = pos zero
negated (suc n) = negsuc n

unfoldable pub negative : Option ℕ → Option ℤ
negative none = none
negative (some n) = if leb n (2 ^ 63) then some (negated n) else none

-- strconv.ParseInt(s, 10, 64); `none` is an error.
unfoldable pub parse_int : Text → Option ℤ
unfolding parse_unsigned positive negative
parse_int [] = none
parse_int (c ∷ s) =
    if c == b'-'
    then negative (parse_unsigned s)
    else if c == b'+'
    then positive (parse_unsigned s)
    else positive (parse_unsigned (c ∷ s))
