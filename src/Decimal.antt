-- ===== src/Decimal.antt =====
-- What the source uses of Go's strconv: FormatInt and ParseInt in base 10 at 64 bits.
pub mod RoundTrip
use kratos_micro_layout.Prelude.{
  ℕ, zero, suc, ◌+◌, ◌-◌, ◌*◌, ◌/◌, ◌%◌, ◌^◌, ◌||◌, [], ◌∷◌, Text, ltb, ◌==◌, if◌then◌else◌,
}
use kratos_micro_layout.Prelude.Int.{ℤ, pos, negsuc}
use kratos_micro_layout.Prelude.Result.{Result, ok, err, ◌>>=◌}

pub data ParseError : Type 0 where
  syntax range : ParseError

-- The digits of `n` in front of `out`; each round takes one unit of fuel.
digits : ℕ → ℕ → Text → Text
digits zero n out = out
digits (suc fuel) n out =
    let more = digits fuel (n / 10) ((b'0' + n % 10) ∷ out) in
    if ltb n 10 then (b'0' + n) ∷ out else more

unfoldable pub format_uint : ℕ → Text
unfolding digits
format_uint n = digits (suc n) n []

unfoldable pub format_int : ℤ → Text
format_int (pos n) = format_uint n
format_int (negsuc n) = b'-' ∷ format_uint (suc n)

-- The loop of ParseUint.
scan : Text → ℕ → Result ParseError ℕ
scan [] n = ok n
scan (c ∷ s) n =
    if ltb c b'0' || ltb b'9' c
    then err syntax
    else if ltb (2 ^ 64 - 1) (n * 10 + (c - b'0'))
    then err range
    else scan s (n * 10 + (c - b'0'))

unfoldable pub parse_uint : Text → Result ParseError ℕ
unfolding scan
parse_uint [] = err syntax
parse_uint (c ∷ s) = scan (c ∷ s) 0

unfoldable pub nonnegative : ℕ → Result ParseError ℤ
nonnegative n = if ltb n (2 ^ 63) then ok (pos n) else err range

unfoldable pub negative : ℕ → Result ParseError ℤ
negative zero = ok (pos 0)
negative (suc n) = if ltb n (2 ^ 63) then ok (negsuc n) else err range

-- ParseInt(s, 10, 64)
unfoldable pub parse_int : Text → Result ParseError ℤ
parse_int [] = err syntax
parse_int (c ∷ s) =
    if c == b'-'
    then parse_uint s >>= negative
    else if c == b'+'
    then parse_uint s >>= nonnegative
    else parse_uint (c ∷ s) >>= nonnegative
