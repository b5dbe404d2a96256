-- ===== src/Quote.antt =====
-- Go's %q: a text in double quotes, with the escapes of strconv.Quote. Whether a code point beyond
-- ASCII is printable is a parameter, the tables of unicode.IsPrint.
pub mod Laws
use kratos_micro_layout.Prelude.{
  ℕ, ◌+◌, ◌-◌, ◌/◌, ◌%◌, Bool, ◌&&◌, ◌||◌, [], ◌∷◌, ◌++◌, Text, ltb, leb, ◌==◌, if◌then◌else◌,
}

hex_digit : ℕ → ℕ
hex_digit n = if ltb n 10 then b'0' + n else b'a' + n - 10

hex2 : ℕ → Text
hex2 n = hex_digit (n / 16 % 16) ∷ hex_digit (n % 16) ∷ []

hex4 : ℕ → Text
unfolding hex2
hex4 n = hex2 (n / 256) ++ hex2 n

hex8 : ℕ → Text
unfolding hex4
hex8 n = hex4 (n / 65536) ++ hex4 n

-- The letter that stands for a control character behind a backslash, or 0.
escape_letter : ℕ → ℕ
escape_letter c =
    if c == 7
    then b'a'
    else if c == 8
    then b'b'
    else if c == 12
    then b'f'
    else if c == 10
    then b'n'
    else if c == 13
    then b'r'
    else if c == 9
    then b't'
    else if c == 11
    then b'v'
    else 0

module _ (printable : ℕ → Bool) where
  is_print : ℕ → Bool
  is_print c = if ltb c 0x80 then leb 0x20 c && ltb c 0x7f else printable c

  quote_char : ℕ → Text
  unfolding is_print escape_letter hex2 hex4 hex8 hex_digit
  quote_char c =
      if c == b'"' || c == b'\\'
      then b'\\' ∷ c ∷ []
      else if is_print c
      then c ∷ []
      else if ltb 0 (escape_letter c)
      then b'\\' ∷ escape_letter c ∷ []
      else if ltb c 0x20 || c == 0x7f
      then b'\\' ∷ b'x' ∷ hex2 c
      else if ltb c 0x10000
      then b'\\' ∷ b'u' ∷ hex4 c
      else b'\\' ∷ b'U' ∷ hex8 c

  quote_body : Text → Text
  unfolding quote_char
  quote_body [] = []
  quote_body (c ∷ s) = quote_char c ++ quote_body s

  unfoldable pub quote : Text → Text
  unfolding quote_body
  quote s = b'"' ∷ (quote_body s ++ b'"' ∷ [])
