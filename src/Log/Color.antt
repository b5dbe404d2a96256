-- ===== src/Log/Color.antt =====
-- pkg/log/color_log.go: the handler that prints a record as one colored line. The print of a time,
-- the frame of a program counter and the printable code points are parameters.
pub mod Derive
pub mod Line
pub mod Plain
mod Tests
use mathlib.Core.List.{reverse}
use kratos_micro_layout.Prelude.{
  ℕ, ◌&&◌, ◌||◌, not, Bool, true, false, Option, none, some, List, [], ◌∷◌, ◌++◌, map, Text,
  text_eq, codes, String, is_empty, ◌==◌, if◌then◌else◌, length, ◌-◌,
}
use kratos_micro_layout.Prelude.Int.{ℤ, pos, negsuc, leb_ℤ}
use kratos_micro_layout.Text.{contains_any}
use kratos_micro_layout.Decimal.{format_uint}
use kratos_micro_layout.Quote.{quote}

-- slog.Attr and slog.Value. A value is the zero Value, a string, a group, a LogValuer that gives a
-- value, or any other kind with its text.
mutual
  pub data Attr : Type 0 where
    attr : Text → Value → Attr

  pub data Value : Type 0 where
    nothing : Value
    text : Text → Value
    other : Text → Value
    group : Attrs → Value
    valuer : Value → Value

  pub data Attrs : Type 0 where
    nil : Attrs
    cons : Attr → Attrs → Attrs

-- slog.Record, with its time as it is printed
pub record Record : Type 0 where
  pub time : Text
  pub level : ℤ
  pub message : Text
  pub pc : ℕ
  pub attrs : Attrs

-- The levels of slog
abbrev pub level_info : ℤ
level_info = pos 0

abbrev pub level_warn : ℤ
level_warn = pos 4

abbrev pub level_error : ℤ
level_error = pos 8

-- An escape sequence of ANSI
abbrev ansi : String → Text
ansi code = 27 ∷ codes code

abbrev pub ansi_reset : Text
ansi_reset = ansi "[0m"

abbrev pub ansi_gray : Text
ansi_gray = ansi "[90m"

abbrev pub ansi_blue : Text
ansi_blue = ansi "[34m"

abbrev pub ansi_green : Text
ansi_green = ansi "[32m"

abbrev pub ansi_yellow : Text
ansi_yellow = ansi "[33m"

abbrev pub ansi_red : Text
ansi_red = ansi "[31m"

abbrev pub ansi_bold : Text
ansi_bold = ansi "[1m"

-- ColorHandlerOptions; no level is Info.
pub record ColorHandlerOptions : Type 0 where
  pub level : Option ℤ
  pub add_source : Bool
  pub no_color : Bool

-- ColorHandler, without its writer and mutex: `handle` is what it writes.
pub record ColorHandler : Type 0 where
  pub level : ℤ
  pub add_source : Bool
  pub attrs : List Attr
  pub group : Text
  pub color : Bool

-- isColorCapable, for the values of NO_COLOR and TERM and whether the writer is a standard stream
unfoldable pub is_color_capable : Text → Text → Bool → Bool
is_color_capable no_color term standard =
    if not (is_empty no_color)
    then false
    else if text_eq term (codes "dumb")
    then false
    else standard

-- NewColorHandler
unfoldable pub new_color_handler : Option ColorHandlerOptions → Bool → ColorHandler
new_color_handler none capable = record {
  level = level_info;
  add_source = false;
  attrs = [];
  group = [];
  color = capable;
}
new_color_handler (some o) capable = record {
  level = elim o.level [ none ↦ level_info | some l ↦ l ];
  add_source = o.add_source;
  attrs = [];
  group = [];
  color = not o.no_color && capable;
}

-- Enabled
unfoldable pub enabled : ColorHandler → ℤ → Bool
enabled h level = leb_ℤ h.level level

unfoldable pub join_group : Text → Text → Text
join_group prefix name =
    if is_empty prefix then name else if is_empty name then prefix else prefix ++ (b'.' ∷ name)

-- What appendColorAttr appends: the attribute with its dotted key, or those of its group.
unfoldable mutual
  unfolding join_group

  pub flatten : Text → Attr → List Attr
  flatten g (attr key v) = flatten_value g key v

  pub flatten_value : Text → Text → Value → List Attr
  flatten_value g key nothing = if is_empty key then [] else attr (join_group g key) nothing ∷ []
  flatten_value g key (text s) = attr (join_group g key) (text s) ∷ []
  flatten_value g key (other s) = attr (join_group g key) (other s) ∷ []
  flatten_value g key (group more) = flatten_all (join_group g key) more
  flatten_value g key (valuer v) = flatten_value g key v

  pub flatten_all : Text → Attrs → List Attr
  flatten_all g nil = []
  flatten_all g (cons a more) = flatten g a ++ flatten_all g more

-- WithAttrs
unfoldable pub with_attrs : Attrs → ColorHandler → ColorHandler
unfolding flatten
with_attrs nil h = h
with_attrs (cons a more) h = record h { attrs = h.attrs ++ flatten_all h.group (cons a more) }

-- WithGroup
unfoldable pub with_group : Text → ColorHandler → ColorHandler
unfolding join_group
with_group name h = if is_empty name then h else record h { group = join_group h.group name }

unfoldable pub colorize : ColorHandler → Text → Text → Text
colorize h color s = if h.color then color ++ (s ++ ansi_reset) else s

-- The tag of a level, padded to five characters, and its color
unfoldable pub level_tag : ColorHandler → ℤ → Text
unfolding colorize
level_tag h level =
    if leb_ℤ level_error level
    then colorize h (ansi_bold ++ ansi_red) (codes "ERROR")
    else if leb_ℤ level_warn level
    then colorize h (ansi_bold ++ ansi_yellow) (codes "WARN ")
    else if leb_ℤ level_info level
    then colorize h (ansi_bold ++ ansi_green) (codes "INFO ")
    else colorize h (ansi_bold ++ ansi_blue) (codes "DEBUG")

-- filepath.Base of a path that is not empty: its last element.
drop_slashes : Text → Text
drop_slashes [] = []
drop_slashes (c ∷ s) = let rest = drop_slashes s in if c == b'/' then rest else c ∷ s

until_slash : Text → Text
until_slash [] = []
until_slash (c ∷ s) = if c == b'/' then [] else c ∷ until_slash s

unfoldable pub base : Text → Text
unfolding drop_slashes until_slash
base path =
    let trimmed = drop_slashes (reverse path) in
    if is_empty trimmed then codes "/" else reverse (until_slash trimmed)

-- sourceLocation, for the file and the line of a program counter
unfoldable pub source_location : (ℕ → Text × ℕ) → ℕ → Text
unfolding base
source_location frame pc =
    let (file, line) = frame pc in
    if pc == 0 || is_empty file then [] else base file ++ (b':' ∷ format_uint line)

-- What Handle writes in front of the attributes
unfoldable pub head : (ℕ → Text × ℕ) → ColorHandler → Record → Text
unfolding colorize level_tag source_location
head frame h r =
    let src = source_location frame r.pc in
    colorize h ansi_gray r.time
    ++ (b' '
        ∷ (level_tag h r.level
            ++ ((if h.add_source && not (is_empty src) then b' ' ∷ colorize h ansi_gray src else [])
                ++ (b' ' ∷ r.message))))

module _ (printable : ℕ → Bool) where
  -- `key=value` with a space before it
  unfoldable pub pair : Text → Text → Text → Text
  pair g key value =
      b' '
      ∷ (join_group g key
          ++ (b'=' ∷ (if contains_any value (codes " \t\"") then quote printable value else value)))

  -- What writeColorAttr writes
  unfoldable mutual
    unfolding pair

    pub write_attr : Text → Attr → Text
    write_attr g (attr key v) = write_value g key v

    pub write_value : Text → Text → Value → Text
    write_value g key nothing = if is_empty key then [] else pair g key (codes "<nil>")
    write_value g key (text s) = if is_empty s then [] else pair g key s
    write_value g key (other s) = pair g key s
    write_value g key (group more) = write_attrs (join_group g key) more
    write_value g key (valuer v) = write_value g key v

    pub write_attrs : Text → Attrs → Text
    write_attrs g nil = []
    write_attrs g (cons a more) = write_attr g a ++ write_attrs g more

  -- The loop over the stored attributes
  unfoldable pub write_stored : List Attr → Text
  unfolding write_attr
  write_stored [] = []
  write_stored (a ∷ more) = write_attr [] a ++ write_stored more

  -- Handle
  unfoldable pub handle : (ℕ → Text × ℕ) → ColorHandler → Record → Text
  handle frame h r =
      head frame h r ++ (write_stored h.attrs ++ (write_attrs h.group r.attrs ++ codes "\n"))
