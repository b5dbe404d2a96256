-- ===== src/Docs.antt =====
-- pkg/docs/docs.go: the OpenAPI document of a service, with a security scheme and the servers of the
-- request. The embedded files and the Swagger UI are parameters. The regular expressions of the
-- source match whole lines, and are tests on the lines of a document here.
pub mod Around
pub mod Inserted
pub mod Lines
pub mod Scheme
pub mod Servers
pub mod Served
mod Tests
use kratos_micro_layout.Prelude.{
  ℕ, ◌&&◌, ◌||◌, Bool, true, false, Option, none, some, List, [], ◌∷◌, ◌++◌, Text, text_eq, codes,
  String, ◌==◌, is_empty, if◌then◌else◌,
}
use kratos_micro_layout.Text.{has_prefix}
use kratos_micro_layout.Http.{Request, Writer, Header, get, set_header, write, content_type}

abbrev pub ui_path : Text
ui_path = codes "/swagger"

abbrev pub spec_file : Text
spec_file = codes "/openapi.yaml"

-- specPath
unfoldable pub spec_path : Text → Text
spec_path domain = codes "specs/" ++ (domain ++ codes "/openapi.yaml")

-- The lines of a text that a newline ends, and what stands behind the last one.
add_char : ℕ → List Text × Text → List Text × Text
add_char c ([], last) = ([], c ∷ last)
add_char c (l ∷ ls, last) = ((c ∷ l) ∷ ls, last)

unfoldable pub lines : Text → List Text × Text
unfolding add_char
lines [] = ([], [])
lines (c ∷ s) =
    let (ls, last) = lines s in if c == 10 then ([] ∷ ls, last) else add_char c (ls, last)

unfoldable pub unlines : List Text → Text → Text
unlines [] last = last
unlines (l ∷ ls) last = l ++ (10 ∷ unlines ls last)

-- ReplaceAllFunc by a function that puts a block behind each line that passes the test.
unfoldable pub insert_after : (Text → Bool) → Text → List Text → Text → Text
insert_after test block [] last = last
insert_after test block (l ∷ ls) last =
    l ++ (10 ∷ ((if test l then block else []) ++ insert_after test block ls last))

abbrev pub scheme_lines : List Text
scheme_lines =
    codes "    securitySchemes:"
    ∷ codes "        bearerAuth:"
    ∷ codes "            type: http"
    ∷ codes "            scheme: bearer"
    ∷ codes "            bearerFormat: JWT"
    ∷ []

abbrev pub security_lines : List Text
security_lines = codes "security:" ∷ codes "    - bearerAuth: []" ∷ []

-- securitySchemesBlock and securityBlock
unfoldable pub security_schemes_block : Text
unfolding unlines
security_schemes_block = unlines scheme_lines []

unfoldable pub security_block : Text
unfolding unlines
security_block = unlines security_lines []

-- componentsLine and openapiLine
abbrev pub is_components : Text → Bool
is_components l = text_eq l (codes "components:")

unfoldable pub is_openapi : Text → Bool
is_openapi l = has_prefix l (codes "openapi:")

-- withSecurityScheme
unfoldable pub with_components : Text → Text
with_components doc =
    let (ls, last) = lines doc in
    let out = insert_after is_components security_schemes_block ls last in
    if text_eq out doc then out ++ (codes "components:" ++ (10 ∷ security_schemes_block)) else out

unfoldable pub with_security_scheme : Text → Text
unfolding with_components
with_security_scheme doc =
    let (ls, last) = lines (with_components doc) in insert_after is_openapi security_block ls last

-- Spec, for the file that is read
unfoldable pub spec : (Text → Option Text) → Text → Option Text
spec read_file domain = elim (read_file (spec_path domain)) [
  | none ↦ none
  | some raw ↦ some (with_security_scheme raw)
]

-- serversBlock: a line `servers:` with one or more lines behind it that list a url.
is_blank : ℕ → Bool
is_blank c = c == b' ' || c == 9

skip_blanks : Text → Text
skip_blanks [] = []
skip_blanks (c ∷ s) = if is_blank c then skip_blanks s else c ∷ s

starts_blank : Text → Bool
starts_blank [] = false
starts_blank (c ∷ s) = is_blank c

after_dash : Text → Bool
after_dash [] = false
after_dash (c ∷ s) = c == b'-' && (starts_blank s && has_prefix (skip_blanks s) (codes "url:"))

unfoldable pub is_url : Text → Bool
unfolding is_blank skip_blanks starts_blank after_dash
is_url l = starts_blank l && after_dash (skip_blanks l)

abbrev pub is_servers : Text → Bool
is_servers l = text_eq l (codes "servers:")

unfoldable pub url_first : List Text → Bool
url_first [] = false
url_first (l ∷ ls) = is_url l

-- serversBlock.ReplaceAllFunc; the flag is whether the line before was in a match.
unfoldable pub replace_servers : Text → Bool → List Text → Text → Text
replace_servers block inside [] last = last
replace_servers block inside (l ∷ ls) last =
    let more = replace_servers block true ls last in
    let first = block ++ replace_servers block true ls last in
    let other = l ++ (10 ∷ replace_servers block false ls last) in
    if inside && is_url l then more else if is_servers l && url_first ls then first else other

-- origin
unfoldable pub origin : Request → Text
origin req =
    let scheme = if req.tls then codes "https" else codes "http" in
    let proto = get (codes "X-Forwarded-Proto") req.header in
    let forwarded = get (codes "X-Forwarded-Host") req.header in
    (if is_empty proto then scheme else proto)
    ++ (codes "://" ++ (if is_empty forwarded then req.host else forwarded))

abbrev pub servers_block : Request → Text
servers_block req = codes "servers:" ++ (10 ∷ (codes "    - url: " ++ (origin req ++ (10 ∷ []))))

-- handleSpec
unfoldable pub handle_spec : Text → Request → Writer → Writer
handle_spec doc req w =
    let (ls, last) = lines doc in
    let body = replace_servers (servers_block req) false ls last in
    let typed = set_header content_type (codes "application/yaml; charset=utf-8") w in
    (write body (set_header (codes "Cache-Control") (codes "no-store") typed)).0

-- What Register mounts: the UI under a prefix, a redirect to it, and the document.
pub record Mounts : Type 0 where
  pub ui_prefix : Text
  pub redirect_from : Text
  pub redirect_to : Text
  pub redirect_status : ℕ
  pub spec_at : Text
  pub document : Text

abbrev pub mounts : Text → Mounts
mounts doc = record {
  ui_prefix = ui_path ++ codes "/";
  redirect_from = ui_path;
  redirect_to = ui_path ++ codes "/";
  redirect_status = 301;
  spec_at = spec_file;
  document = doc;
}

-- Register; none is its panic.
unfoldable pub register : (Text → Option Text) → Text → Option Mounts
register read_file domain = elim (spec read_file domain) [
  | none ↦ none
  | some doc ↦ some (mounts doc)
]
