-- ===== src/Log/Color/Tests.antt =====
-- The theorems on the color handler at concrete records.
use kratos_micro_layout.Prelude.{
  ℕ, ◌≡◌, refl, ◌&&◌, not, Bool, true, false, List, [], ◌∷◌, ◌++◌, Text, codes,
}
use kratos_micro_layout.Text.{contains, contains_any}
use kratos_micro_layout.Decimal.{format_uint}
use kratos_micro_layout.Log.Color.{
  attr, text, other, group, nil, cons, Record, ColorHandler, handle, head, write_stored, join_group,
  pair, source_location, base, level_info,
}
use kratos_micro_layout.Log.Color.Derive.{Derivation, derive, handle-derive}
use kratos_micro_layout.Log.Color.Plain.{shown, uncolored, handle-uncolored}
use kratos_micro_layout.Log.Color.Line.{
  IsOneLine, IsPlain, IsSafe, Fits, handle-IsOneLine, pair-newline,
}

abbrev none_printable : ℕ → Bool
none_printable c = false

abbrev main_go : ℕ → Text × ℕ
main_go pc = (codes "/app/main.go", pc)

abbrev plain_handler : ColorHandler
plain_handler = record {
  level = level_info;
  add_source = true;
  attrs = attr (codes "app") (text (codes "gateway")) ∷ [];
  group = codes "http";
  color = true;
}

abbrev request_done : Record
request_done = record {
  time = codes "10:00:00";
  level = level_info;
  message = codes "request";
  pc = 41;
  attrs = cons (attr (codes "path") (text (codes "/user/v1/me"))) nil;
}

abbrev history : List Derivation
history =
    Derivation.with_attrs (cons (attr (codes "id") (other (codes "7"))) nil)
    ∷ Derivation.with_group (codes "user")
    ∷ []

handle-derive_example :
    handle none_printable main_go (derive history plain_handler) request_done
    ≡ handle none_printable main_go plain_handler (record request_done {
      attrs =
          cons
            (attr (codes "id") (other (codes "7")))
            (cons (attr (codes "user") (group request_done.attrs)) nil);
    })
handle-derive_example = handle-derive none_printable main_go history plain_handler request_done

one_line : IsPlain main_go request_done
unfolding contains source_location base format_uint
one_line = record { time = refl; source = refl; message = refl }

key_lines : (IsOneLine (codes "http")) × (IsOneLine (codes "app")) × (IsOneLine (codes "path"))
unfolding contains
key_lines = (refl, refl, refl)

value_lines : (IsSafe (codes "gateway")) × (IsSafe (codes "/user/v1/me"))
unfolding contains
value_lines = (refl, refl)

handle-IsOneLine_example :
    (line : Text) × (handle none_printable main_go plain_handler request_done ≡ line ++ codes "\n")
    × IsOneLine line
unfolding Fits
handle-IsOneLine_example =
    handle-IsOneLine none_printable main_go plain_handler request_done one_line key_lines.0
      ((key_lines.1, value_lines.0), tt) ((key_lines.2, value_lines.1), tt)

pair-newline_example :
    contains (pair none_printable (codes "http") (codes "path") (codes "a\nb")) 10
    ≡ (contains (codes "a\nb") 10 && not (contains_any (codes "a\nb") (codes " \t\"")))
pair-newline_example =
    pair-newline none_printable (codes "http") (codes "path") (codes "a\nb") key_lines.0 key_lines.2

no_escape :
    contains (handle none_printable main_go (uncolored plain_handler) request_done) 27 ≡ false
unfolding contains handle head format_uint write_stored join_group contains_any
no_escape = refl

handle-uncolored_example :
    shown false (handle none_printable main_go plain_handler request_done)
    ≡ handle none_printable main_go (uncolored plain_handler) request_done
handle-uncolored_example =
    handle-uncolored none_printable main_go plain_handler request_done no_escape
