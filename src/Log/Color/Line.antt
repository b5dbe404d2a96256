-- ===== src/Log/Color/Line.antt =====
-- Which records are printed as one line.
use kratos_micro_layout.Prelude.{
  ℕ, ◌≡◌, refl, sym, ap, ◌∙◌, arith, ◌&&◌, not, Bool, true, false, List, [], ◌∷◌, ◌++◌, Text, codes,
  is_empty, if◌then◌else◌, ◌==◌, Bool-cases, inl, inr, All,
}
use kratos_micro_layout.Prelude.Int.{ℤ}
use mathlib.Core.List.{append_assoc}
use kratos_micro_layout.Text.{contains, contains_any}
use kratos_micro_layout.Text.Laws.{contains-append}
use kratos_micro_layout.Quote.{quote}
use kratos_micro_layout.Quote.Laws.{quote-newline}
use kratos_micro_layout.Log.Color.{
  Attr, attr, Value, nothing, text, other, group, valuer, Attrs, nil, cons, Record, ColorHandler,
  join_group, pair, write_attr, write_value, write_attrs, write_stored, colorize, level_tag,
  source_location, head, handle, ansi_gray, ansi_reset,
}

-- The text has no newline.
abbrev pub IsOneLine : Text → Type 0
IsOneLine s = contains s 10 ≡ false

-- A value that is quoted, or needs no quoting.
abbrev pub IsSafe : Text → Type 0
IsSafe v = (contains v 10 && not (contains_any v (codes " \t\""))) ≡ false

unfoldable mutual
  pub Fits : Attr → Type 0
  Fits (attr key v) = IsOneLine key × FitsValue v

  pub FitsValue : Value → Type 0
  FitsValue nothing = Unit {0}
  FitsValue (text s) = IsSafe s
  FitsValue (other s) = IsSafe s
  FitsValue (group more) = FitsAll more
  FitsValue (valuer v) = FitsValue v

  pub FitsAll : Attrs → Type 0
  FitsAll nil = Unit {0}
  FitsAll (cons a more) = Fits a × FitsAll more

append-IsOneLine : (s t : Text) → IsOneLine s → IsOneLine t → IsOneLine (s ++ t)
append-IsOneLine s t hs ht = rw (contains-append, hs, ht) refl

cons-IsOneLine : (c : ℕ) (s : Text) → (10 == c) ≡ false → IsOneLine s → IsOneLine (c ∷ s)
unfolding contains
cons-IsOneLine c s hc hs = ground arith

join_group-IsOneLine :
    (g name : Text) → IsOneLine g → IsOneLine name → IsOneLine (join_group g name)
unfolding join_group
join_group-IsOneLine [] name hg hn = hn
join_group-IsOneLine (d ∷ g) [] hg hn = hg
join_group-IsOneLine (d ∷ g) (c ∷ name) hg hn =
    append-IsOneLine (d ∷ g) (b'.' ∷ c ∷ name) hg (cons-IsOneLine b'.' (c ∷ name) refl hn)

nil-IsOneLine : IsOneLine []
unfolding contains
nil-IsOneLine = refl

nil_marker-IsSafe : IsSafe (codes "<nil>")
unfolding contains
nil_marker-IsSafe = refl

and_false : (b : Bool) → (b && false) ≡ false
and_false true = refl
and_false false = refl

and_true : (b : Bool) → (b && true) ≡ b
and_true true = refl
and_true false = refl

module _ (printable : ℕ → Bool) where
  value-newline :
      (v : Text)
      → contains (if contains_any v (codes " \t\"") then quote printable v else v) 10
        ≡ (contains v 10 && not (contains_any v (codes " \t\"")))
  value-newline v = elim (Bool-cases (contains_any v (codes " \t\""))) [
    | inl quoted ↦ rw (quoted, quote-newline, and_false) refl
    | inr plain ↦ rw (plain, and_true) refl
  ]

  -- A pair whose group and key have no newline breaks its line exactly if its value has a newline
  -- and nothing that makes it quoted.
  pub pair-newline :
      (g key v : Text)
      → IsOneLine g
      → IsOneLine key
      → contains (pair printable g key v) 10
        ≡ (contains v 10 && not (contains_any v (codes " \t\"")))
  unfolding pair contains
  pair-newline g key v hg hk =
      rw (contains-append, join_group-IsOneLine g key hg hk) (value-newline v)

  pair-IsOneLine :
      (g key v : Text) → IsOneLine g → IsOneLine key → IsSafe v → IsOneLine (pair printable g key v)
  pair-IsOneLine g key v hg hk hv = pair-newline g key v hg hk ∙ hv

  mutual
    unfolding Fits write_attr

    write_attr-IsOneLine :
        (g : Text) (a : Attr) → IsOneLine g → Fits a → IsOneLine (write_attr printable g a)
    write_attr-IsOneLine g (attr key v) hg (hk, hv) = write_value-IsOneLine g key v hg hk hv

    write_value-IsOneLine :
        (g key : Text) (v : Value)
        → IsOneLine g
        → IsOneLine key
        → FitsValue v
        → IsOneLine (write_value printable g key v)
    write_value-IsOneLine g [] nothing hg hk hv = nil-IsOneLine
    write_value-IsOneLine g (c ∷ key) nothing hg hk hv =
        pair-IsOneLine g (c ∷ key) (codes "<nil>") hg hk nil_marker-IsSafe
    write_value-IsOneLine g key (text []) hg hk hv = nil-IsOneLine
    write_value-IsOneLine g key (text (c ∷ s)) hg hk hv = pair-IsOneLine g key (c ∷ s) hg hk hv
    write_value-IsOneLine g key (other s) hg hk hv = pair-IsOneLine g key s hg hk hv
    write_value-IsOneLine g key (group more) hg hk hv =
        write_attrs-IsOneLine (join_group g key) more (join_group-IsOneLine g key hg hk) hv
    write_value-IsOneLine g key (valuer v) hg hk hv = write_value-IsOneLine g key v hg hk hv

    write_attrs-IsOneLine :
        (g : Text) (more : Attrs)
        → IsOneLine g
        → FitsAll more
        → IsOneLine (write_attrs printable g more)
    write_attrs-IsOneLine g nil hg h = nil-IsOneLine
    write_attrs-IsOneLine g (cons a more) hg (ha, h) =
        append-IsOneLine (write_attr printable g a) (write_attrs printable g more)
          (write_attr-IsOneLine g a hg ha) (write_attrs-IsOneLine g more hg h)

  write_stored-IsOneLine :
      (more : List Attr) → All Fits more → IsOneLine (write_stored printable more)
  unfolding write_stored
  write_stored-IsOneLine [] h = nil-IsOneLine
  write_stored-IsOneLine (a ∷ more) (ha, h) =
      append-IsOneLine (write_attr printable [] a) (write_stored printable more)
        (write_attr-IsOneLine [] a nil-IsOneLine ha) (write_stored-IsOneLine more h)

reset-IsOneLine : IsOneLine ansi_reset
unfolding contains
reset-IsOneLine = refl

gray-IsOneLine : IsOneLine ansi_gray
unfolding contains
gray-IsOneLine = refl

colorize-IsOneLine :
    (h : ColorHandler) (color s : Text)
    → IsOneLine color
    → IsOneLine s
    → IsOneLine (colorize h color s)
unfolding colorize
colorize-IsOneLine h color s hc hs = elim (Bool-cases h.color) [
  | inl colored ↦ rw colored (
      append-IsOneLine color (s ++ ansi_reset) hc
        (append-IsOneLine s ansi_reset hs reset-IsOneLine))
  | inr plain ↦ rw plain hs
]

level_tag-IsOneLine : (h : ColorHandler) (level : ℤ) → IsOneLine (level_tag h level)
unfolding level_tag colorize contains
level_tag-IsOneLine h level = ground arith

source_part-IsOneLine :
    (h : ColorHandler) (src : Text)
    → IsOneLine src
    → IsOneLine (if h.add_source && not (is_empty src) then b' ' ∷ colorize h ansi_gray src else [])
source_part-IsOneLine h src one = elim (Bool-cases (h.add_source && not (is_empty src))) [
  | inl shown ↦
      rw shown (cons-IsOneLine b' ' _ refl (colorize-IsOneLine h ansi_gray src gray-IsOneLine one))
  | inr hidden ↦ rw hidden nil-IsOneLine
]

-- What is printed of the record itself has no newline.
pub record IsPlain (frame : ℕ → Text × ℕ) (r : Record) : Type 0 where
  pub time : IsOneLine r.time
  pub source : IsOneLine (source_location frame r.pc)
  pub message : IsOneLine r.message

head-IsOneLine :
    (frame : ℕ → Text × ℕ) (h : ColorHandler) (r : Record)
    → IsPlain frame r
    → IsOneLine (head frame h r)
unfolding head
head-IsOneLine frame h r plain =
    let src = source_location frame r.pc in
    append-IsOneLine (colorize h ansi_gray r.time) _
      (colorize-IsOneLine h ansi_gray r.time gray-IsOneLine plain.time)
      (cons-IsOneLine b' ' _ refl (
        append-IsOneLine (level_tag h r.level) _ (level_tag-IsOneLine h r.level) (
          append-IsOneLine
            (if h.add_source && not (is_empty src) then b' ' ∷ colorize h ansi_gray src else []) _
            (source_part-IsOneLine h src plain.source)
            (cons-IsOneLine b' ' r.message refl plain.message))))

-- Handle writes exactly one line for a record whose time, source and message have no newline, if
-- the keys, the groups and the unquoted values of its attributes have none: a value with a space, a
-- tab or a quote may hold any.
pub handle-IsOneLine :
    (printable : ℕ → Bool) (frame : ℕ → Text × ℕ) (h : ColorHandler) (r : Record)
    → IsPlain frame r
    → IsOneLine h.group
    → All Fits h.attrs
    → FitsAll r.attrs
    → (line : Text) × (handle printable frame h r ≡ line ++ codes "\n") × IsOneLine line
unfolding handle
handle-IsOneLine printable frame h r plain group_line stored own =
    let before = head frame h r in
    let middle = write_stored printable h.attrs in
    let last = write_attrs printable h.group r.attrs in
    (
      before ++ (middle ++ last),
      ap (λ t. before ++ t) (sym (append_assoc middle last (codes "\n")))
          ∙ sym (append_assoc before (middle ++ last) (codes "\n")),
      append-IsOneLine before (middle ++ last) (head-IsOneLine frame h r plain) (
          append-IsOneLine middle last (write_stored-IsOneLine printable h.attrs stored)
            (write_attrs-IsOneLine printable h.group r.attrs group_line own)),
    )
