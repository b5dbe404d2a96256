-- ===== src/Decimal/RoundTrip.antt =====
-- What is printed is read back, and what is read fits.
use kratos_micro_layout.Prelude.{
  ℕ, zero, suc, ◌+◌, ◌/◌, ◌%◌, ◌^◌, ◌≤◌, ◌<◌, ◌≡◌, refl, arith, [], ◌∷◌, Text, Bool-cases, ltb,
  ◌==◌, inl, inr,
}
use kratos_micro_layout.Prelude.Int.{ℤ, pos, negsuc}
use kratos_micro_layout.Prelude.Result.{Result, ok, err, ◌>>=◌}
use kratos_micro_layout.Word.{IsInt64}
use kratos_micro_layout.Decimal.{
  ParseError, digits, format_uint, format_int, scan, parse_uint, parse_int, nonnegative, negative,
}

-- Reading the digits of `n` and then `out` is reading `out` behind `n`.
scan-digits :
    (fuel n : ℕ) (out : Text) → n < fuel → n < 2 ^ 64 → scan (digits fuel n out) 0 ≡ scan out n
unfolding scan digits
scan-digits zero n out h fits = absurd (omega arith)
scan-digits (suc fuel) n out h fits =
    ground (arith, scan-digits fuel (n / 10) ((b'0' + n % 10) ∷ out))

-- A print starts with a digit.
abbrev pub IsDigit : ℕ → Type 0
IsDigit c = (b'0' ≤ c) × (c ≤ b'9')

abbrev StartsWithDigit : Text → Type 0
StartsWithDigit [] = ⊥
StartsWithDigit (c ∷ s) = IsDigit c

digits-StartsWithDigit : (fuel n : ℕ) (out : Text) → n < fuel → StartsWithDigit (digits fuel n out)
unfolding digits
digits-StartsWithDigit zero n out h = absurd (omega arith)
digits-StartsWithDigit (suc fuel) n out h = elim (Bool-cases (ltb n 10)) [
  | inl last ↦ rw last (ground arith)
  | inr more ↦ rw more (digits-StartsWithDigit fuel (n / 10) ((b'0' + n % 10) ∷ out) (ground arith))
]

parse_uint-scan : (s : Text) → StartsWithDigit s → parse_uint s ≡ scan s 0
unfolding parse_uint
parse_uint-scan [] h = absurd h
parse_uint-scan (c ∷ s) h = refl

parse_uint-format_uint : (n : ℕ) → n < 2 ^ 64 → parse_uint (format_uint n) ≡ ok n
unfolding format_uint
parse_uint-format_uint n h =
    rw
      (
        parse_uint-scan _ (digits-StartsWithDigit (suc n) n [] (omega arith)),
        scan-digits (suc n) n [] (omega arith) h,
      )
      (unfold scan in refl)

parse_int-unsigned : (s : Text) → StartsWithDigit s → parse_int s ≡ (parse_uint s >>= nonnegative)
unfolding parse_int
parse_int-unsigned [] h = absurd h
parse_int-unsigned (c ∷ s) h = ground arith

format_uint-StartsWithDigit : (n : ℕ) → StartsWithDigit (format_uint n)
unfolding format_uint
format_uint-StartsWithDigit n = digits-StartsWithDigit (suc n) n [] (omega arith)

parse_int-minus : (s : Text) → parse_int (b'-' ∷ s) ≡ (parse_uint s >>= negative)
unfolding parse_int
parse_int-minus s = refl

-- Every int64 is read back from its decimal print.
pub parse_int-format_int : (z : ℤ) → IsInt64 z → parse_int (format_int z) ≡ ok z
unfolding format_int nonnegative negative
parse_int-format_int (pos n) h =
    rw
      (parse_int-unsigned _ (format_uint-StartsWithDigit n), parse_uint-format_uint n (omega arith))
      (ground arith)
parse_int-format_int (negsuc n) h =
    rw (parse_int-minus, parse_uint-format_uint (suc n) (omega arith)) (ground arith)

nonnegative-IsInt64 : (r : Result ParseError ℕ) {z : ℤ} → (r >>= nonnegative) ≡ ok z → IsInt64 z
unfolding nonnegative
nonnegative-IsInt64 (ok n) h = ground arith
nonnegative-IsInt64 (err e) h = cc

negative-IsInt64 : (r : Result ParseError ℕ) {z : ℤ} → (r >>= negative) ≡ ok z → IsInt64 z
unfolding negative
negative-IsInt64 (ok zero) h = ground arith
negative-IsInt64 (ok (suc n)) h = ground arith
negative-IsInt64 (err e) h = cc

-- What is read fits an int64.
pub parse_int-IsInt64 : (s : Text) {z : ℤ} → parse_int s ≡ ok z → IsInt64 z
unfolding parse_int
parse_int-IsInt64 [] h = cc
parse_int-IsInt64 (c ∷ s) {z} h = elim (Bool-cases (c == b'-')) [
  | inl minus ↦ negative-IsInt64 (parse_uint s) (rw minus at h)
  | inr other ↦ elim (Bool-cases (c == b'+')) [
    | inl plus ↦ nonnegative-IsInt64 (parse_uint s) (rw (other, plus) at h)
    | inr plain ↦ nonnegative-IsInt64 (parse_uint (c ∷ s)) (rw (other, plain) at h)
  ]
]
