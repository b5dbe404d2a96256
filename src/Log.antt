-- ===== src/Log.antt =====
-- pkg/log/log.go: the logger that a service builds from its options. The handlers of slog and the
-- rotation of lumberjack are not modelled: a logger is the handler and the target that are chosen.
pub mod Laws
pub mod Color
mod Tests
use kratos_micro_layout.Prelude.{
  ℕ, ◌&&◌, ◌||◌, Bool, true, false, Text, text_eq, codes, String, is_empty, if◌then◌else◌,
}
use kratos_micro_layout.Prelude.Int.{ℤ}
use kratos_micro_layout.Prelude.Result.{Result, ok, err}
use kratos_micro_layout.Text.{to_lower, equal_fold, trim_space}
use kratos_micro_layout.Middleware.Logging.{Level, debug, info, warn, error}

pub record Rotation : Type 0 where
  pub max_size : ℤ
  pub max_backups : ℤ
  pub max_age : ℤ
  pub compress : Bool

pub record Options : Type 0 where
  pub level : Text
  pub format : Text
  pub output : Text
  pub file_path : Text
  pub add_source : Bool
  pub no_color : Bool
  pub rotation : Rotation

-- The writer, whose cleanup closes a file and does nothing else.
pub data Target : Type 0 where
  stdout stderr : Target
  file : Text → Rotation → Target

pub data Handler : Type 0 where
  json_handler text_handler : Level → Bool → Handler
  color_handler : Level → Bool → Bool → Handler

pub record Logger : Type 0 where
  pub handler : Handler
  pub target : Target

pub data OpenError : Type 0 where
  no_file_path : Text → OpenError

-- ParseLevel
unfoldable pub parse_level : Text → Level
parse_level s =
    let name = to_lower (trim_space s) in
    if text_eq name (codes "debug")
    then debug
    else if text_eq name (codes "warn") || text_eq name (codes "warning")
    then warn
    else if text_eq name (codes "error")
    then error
    else info

-- Options.Writer
unfoldable pub writer : Options → Target
writer o =
    let name = to_lower (trim_space o.output) in
    if text_eq name (codes "stderr")
    then stderr
    else if text_eq name (codes "file")
    then file o.file_path o.rotation
    else stdout

unfoldable pub handler_of : Options → Handler
unfolding parse_level
handler_of o =
    let name = to_lower (trim_space o.format) in
    if text_eq name (codes "json")
    then json_handler (parse_level o.level) o.add_source
    else if text_eq name (codes "color")
    then color_handler (parse_level o.level) o.add_source o.no_color
    else text_handler (parse_level o.level) o.add_source

-- New
unfoldable pub new : Options → Result OpenError Logger
unfolding writer handler_of
new o =
    if equal_fold (trim_space o.output) (codes "file") && is_empty (trim_space o.file_path)
    then err (no_file_path o.output)
    else ok (record { handler = handler_of o; target = writer o })
