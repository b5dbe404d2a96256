-- ===== src/Http.antt =====
-- What the source uses of Go's net/http: headers, requests and response writers.
pub mod Laws
use kratos_micro_layout.Prelude.{
  ℕ, Bool, true, false, ◌&&◌, Option, none, some, List, [], ◌∷◌, ◌++◌, Text, text_eq, codes, String,
  if◌then◌else◌,
}

-- The fields of a header in order; a name may stand several times. The source writes and reads
-- names in their canonical form.
abbrev pub Header : Type 0
Header = List (Text × Text)

-- Header.Get: the first value, or the empty text.
unfoldable pub get : Text → Header → Text
get name [] = []
get name ((n, v) ∷ h) = if text_eq n name then v else get name h

-- Header.Del
unfoldable pub del : Text → Header → Header
del name [] = []
del name ((n, v) ∷ h) = if text_eq n name then del name h else (n, v) ∷ del name h

-- Header.Set and Header.Add
unfoldable pub set : Text → Text → Header → Header
unfolding del
set name value h = del name h ++ (name, value) ∷ []

unfoldable pub add : Text → Text → Header → Header
add name value h = h ++ (name, value) ∷ []

-- The address of the client is its host, as net.SplitHostPort finds it.
pub record Request : Type 0 where
  pub remote_ip : Option Text
  pub method : Text
  pub host : Text
  pub tls : Bool
  pub scheme : Text
  pub url_host : Text
  pub path : Text
  pub header : Header

-- A response as its handler builds it: the header that can still be changed, and what was sent:
-- the status with the header of that moment, and the body. Writes fail once the client is gone.
pub record Writer : Type 0 where
  pub header : Header
  pub sent : Option (ℕ × Header)
  pub body : Text
  pub gone : Bool

abbrev pub new_writer : Writer
new_writer = record { header = []; sent = none; body = []; gone = false }

-- ResponseWriter.WriteHeader: only the first call sends a status.
unfoldable pub write_header : ℕ → Writer → Writer
write_header code w = elim w.sent [
  | none ↦ record w { sent = some (code, w.header) }
  | some first ↦ w
]

-- ResponseWriter.Write, and whether it succeeded; it sends the status 200 if none was.
unfoldable pub write : Text → Writer → Writer × Bool
unfolding write_header
write text w =
    let w' = write_header 200 w in
    if w.gone then (w', false) else (record w' { body = w'.body ++ text }, true)

unfoldable pub set_header : Text → Text → Writer → Writer
unfolding set
set_header name value w = record w { header = set name value w.header }

unfoldable pub add_header : Text → Text → Writer → Writer
unfolding add
add_header name value w = record w { header = add name value w.header }

-- The status that a response was sent with.
abbrev pub status_of : Writer → Option ℕ
status_of w = elim w.sent [ none ↦ none | some s ↦ some s.0 ]

abbrev pub status_ok : ℕ
status_ok = 200

abbrev pub status_no_content : ℕ
status_no_content = 204

abbrev pub status_too_many_requests : ℕ
status_too_many_requests = 429

abbrev pub status_internal_server_error : ℕ
status_internal_server_error = 500

abbrev pub status_bad_gateway : ℕ
status_bad_gateway = 502

abbrev pub status_service_unavailable : ℕ
status_service_unavailable = 503

abbrev pub content_type : Text
content_type = codes "Content-Type"

-- http.Handler, for a handler that keeps a state; a filter wraps one.
abbrev pub Serve : Type 0 → Type 0
Serve S = S → Request → Writer → S × Writer
