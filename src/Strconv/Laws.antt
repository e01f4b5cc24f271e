-- ===== src/Strconv/Laws.antt =====
-- Parsing reads back what formatting wrote, so formatting is injective.
use gonesis.Prelude.{
  ℕ, zero, suc, ◌+◌, ◌-◌, ◌*◌, ◌/◌, ◌%◌, ◌^◌, ◌<◌, ◌≤◌, Text, false, some, [], ◌∷◌, ◌++◌, ltb, ℤ,
  pos, negsuc, ◌≡◌, refl, arith, inl, inr, Bool-cases, ap, ◌∙◌,
}
use gonesis.Strconv.{
  digits, itoa, format_int, parse_digits, parse_unsigned, positive, negative, parse_int,
}

-- The digit that a number below ten prints as is read back.
parse_digits-append_digit :
    (n m d : ℕ) (s : Text)
    → d < 10
    → parse_digits n s ≡ some m
    → parse_digits n (s ++ ((48 + d) ∷ [])) ≡ some (m * 10 + d)
unfolding parse_digits
parse_digits-append_digit n m d [] h e = ground arith
parse_digits-append_digit n m d (c ∷ s) h e =
    ground (arith, parse_digits-append_digit (n * 10 + (c - 48)) m d s h)

parse_digits-digits : (f n : ℕ) → n < f → parse_digits 0 (digits f n) ≡ some n
parse_digits-digits zero n h = elim h [ ]
parse_digits-digits (suc f) n h = elim (Bool-cases (ltb n 10)) [
  | inl small ↦ unfold digits parse_digits in rw small (ground arith)
  | inr big ↦ parse_big f n big (parse_digits-digits f (n / 10) (ground arith))
]
  where
    parse_big :
        (f n : ℕ)
        → ltb n 10 ≡ false
        → parse_digits 0 (digits f (n / 10)) ≡ some (n / 10)
        → parse_digits 0 (digits (suc f) n) ≡ some n
    parse_big f n big ih =
        unfold digits in
        rw big (
          parse_digits-append_digit 0 (n / 10) (n % 10) (digits f (n / 10)) (omega arith) ih
          ∙ ap some (omega arith))

-- What is printed begins with a digit, so it is read with no sign.
record StartsWithDigit (s : Text) : Type 0 where
  first : ℕ
  rest : Text
  split : s ≡ first ∷ rest
  low : 48 ≤ first
  high : first ≤ 57

StartsWithDigit-append : (s t : Text) → StartsWithDigit s → StartsWithDigit (s ++ t)
StartsWithDigit-append s t h = record {
  first = h.first;
  rest = h.rest ++ t;
  split = ap (λ x. x ++ t) h.split;
  low = h.low;
  high = h.high;
}

digits-StartsWithDigit : (f n : ℕ) → n < f → StartsWithDigit (digits f n)
unfolding digits
digits-StartsWithDigit zero n h = elim h [ ]
digits-StartsWithDigit (suc f) n h = elim (Bool-cases (ltb n 10)) [
  | inl small ↦
      rw small
        (record { first = 48 + n; rest = []; split = refl; low = omega arith; high = ground arith })
  | inr big ↦ rw big (StartsWithDigit-append _ _ (digits-StartsWithDigit f (n / 10) (ground arith)))
]

parse_unsigned-eq-parse_digits :
    (s : Text) → StartsWithDigit s → parse_unsigned s ≡ parse_digits 0 s
unfolding parse_unsigned
parse_unsigned-eq-parse_digits s d = rw d.split

parse_unsigned-itoa : (n : ℕ) → parse_unsigned (itoa n) ≡ some n
unfolding itoa
parse_unsigned-itoa n =
    parse_unsigned-eq-parse_digits (itoa n) (digits-StartsWithDigit (suc n) n (omega arith))
    ∙ parse_digits-digits (suc n) n (omega arith)

parse_int-unsigned : (s : Text) → StartsWithDigit s → parse_int s ≡ positive (parse_unsigned s)
parse_int-unsigned [] d = cc d.split
parse_int-unsigned (c ∷ s) d = unfold parse_int in ground (arith, d.split)

abbrev pub IsInt64 : ℤ → Type 0
IsInt64 (pos n) = n < 2 ^ 63
IsInt64 (negsuc n) = n < 2 ^ 63

parse_int-positive : (n : ℕ) → n < 2 ^ 63 → parse_int (itoa n) ≡ some (pos n)
parse_int-positive n h =
    parse_int-unsigned (itoa n) (unfold itoa in digits-StartsWithDigit (suc n) n (omega arith))
    ∙ rw parse_unsigned-itoa (unfold positive in ground arith)

-- strconv.ParseInt reads back what strconv.FormatInt wrote, for every int64.
pub parse_int-format_int : (n : ℤ) → IsInt64 n → parse_int (format_int n) ≡ some n
parse_int-format_int (pos n) h = unfold format_int in parse_int-positive n h
parse_int-format_int (negsuc n) h =
    unfold format_int parse_int negative in rw parse_unsigned-itoa (ground arith)

pub itoa-injective : (m n : ℕ) → itoa m ≡ itoa n → m ≡ n
itoa-injective m n h = cc (parse_unsigned-itoa m, parse_unsigned-itoa n)
