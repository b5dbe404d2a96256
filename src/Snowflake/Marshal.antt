-- ===== src/Snowflake/Marshal.antt =====
-- The text form of an identifier.
use kratos_micro_layout.Prelude.{◌≡◌, Text}
use kratos_micro_layout.Prelude.Int.{ℤ}
use kratos_micro_layout.Prelude.Result.{Result, ok}
use kratos_micro_layout.Word.{IsInt64}
use kratos_micro_layout.Decimal.{ParseError, format_int, parse_int}
use kratos_micro_layout.Decimal.RoundTrip.{parse_int-format_int}

-- ID.String, and ID.MarshalText with it
unfoldable pub string : ℤ → Text
string id = format_int id

unfoldable pub marshal_text : ℤ → Text
marshal_text id = string id

-- ID.UnmarshalText
unfoldable pub unmarshal_text : Text → Result ParseError ℤ
unmarshal_text text = parse_int text

-- Every identifier, and every other int64, survives its text form.
pub unmarshal_text-marshal_text : (id : ℤ) → IsInt64 id → unmarshal_text (marshal_text id) ≡ ok id
unfolding unmarshal_text marshal_text string
unmarshal_text-marshal_text id h = parse_int-format_int id h
