-- ===== src/Docs/Tests.antt =====
-- The theorems on documents at a small one.
use kratos_micro_layout.Prelude.{
  ◌≡◌, refl, true, false, List, [], ◌∷◌, ◌++◌, Text, codes, All, Option, none, some,
}
use kratos_micro_layout.Text.{contains, has_prefix}
use kratos_micro_layout.Http.{Request, new_writer, get}
use kratos_micro_layout.Docs.{
  with_security_scheme, unlines, is_openapi, is_components, is_servers, is_url, url_first,
  scheme_lines, security_lines, origin, handle_spec, Mounts, register,
}
use kratos_micro_layout.Docs.Lines.{IsLine, Keeps}
use kratos_micro_layout.Docs.Inserted.{HasBlock, any_line}
use kratos_micro_layout.Docs.Scheme.{with_security_scheme_lem}
use kratos_micro_layout.Docs.Served.{IsServed, register-IsServed}

abbrev small : List Text
small = codes "openapi: 3.0.3" ∷ codes "paths: {}" ∷ []

small_lines : All IsLine small
unfolding contains
small_lines = (refl, (refl, tt))

versioned : any_line is_openapi small ≡ true
unfolding any_line is_openapi has_prefix
versioned = refl

with_security_scheme_lem_example :
    (out : List Text) × (with_security_scheme (unlines small []) ≡ unlines out [])
    × Keeps small out
    × HasBlock is_components scheme_lines out
    × HasBlock is_openapi security_lines out
with_security_scheme_lem_example = with_security_scheme_lem small small_lines versioned

abbrev pre : List Text
pre = codes "openapi: 3.0.3" ∷ []

abbrev post : List Text
post = codes "paths: {}" ∷ []

abbrev first_url : Text
first_url = codes "    - url: http://a"

abbrev second_url : Text
second_url = codes "    - url: http://b"

abbrev asked : Request
asked = record {
  remote_ip = none;
  method = codes "GET";
  host = codes "gateway:8000";
  tls = true;
  scheme = [];
  url_host = [];
  path = codes "/openapi.yaml";
  header = [];
}

whole_fits : All IsLine (pre ++ codes "servers:" ∷ first_url ∷ (second_url ∷ []) ++ post)
unfolding contains
whole_fits = (refl, (refl, (refl, (refl, (refl, tt)))))

no_last : IsLine []
unfolding contains
no_last = refl

tests :
    (any_line is_servers pre ≡ false)
    × (is_url first_url ≡ true)
    × (is_url second_url ≡ true)
    × (any_line is_servers post ≡ false)
    × (url_first post ≡ false)
    × (any_line is_openapi pre ≡ true)
unfolding any_line is_url url_first is_openapi has_prefix
tests = (refl, refl, refl, refl, refl, refl)

-- Every domain has the same document.
abbrev files : Text → Option Text
files name = some (unlines (pre ++ codes "servers:" ∷ first_url ∷ (second_url ∷ []) ++ post) [])

register-IsServed_example :
    (m : Mounts) × (register files (codes "user") ≡ some m)
    × IsServed pre post asked (handle_spec m.document asked new_writer)
register-IsServed_example =
    register-IsServed files (codes "user") pre (second_url ∷ []) post first_url asked new_writer
      refl whole_fits tests.5 tests.0 (tests.1, (tests.2, tt)) tests.3 tests.4 refl refl refl

from_gateway : origin asked ≡ codes "https://gateway:8000"
unfolding origin get
from_gateway = refl
