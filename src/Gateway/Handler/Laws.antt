-- ===== src/Gateway/Handler/Laws.antt =====
-- What the client, the backend and the breaker see of a request.
use kratos_micro_layout.Prelude.{
  ℕ, ◌≡◌, ◌≢◌, refl, arith, Bool, true, not, ◌&&◌, ◌||◌, Option, none, some, List, [], ◌∷◌, ◌++◌,
  Text, is_empty, if◌then◌else◌, eq_some_of_ne_none,
}
use kratos_micro_layout.Text.Laws.{trim_prefix-append}
use kratos_micro_layout.Http.{
  Header, Writer, add_header, write, write_header, set_header, status_of, status_bad_gateway,
}
use kratos_micro_layout.Gateway.Writers.{
  StatusWriter, status_writer, record_header, record_write, write_json, envelope, client_writer,
}
use kratos_micro_layout.Gateway.Handler.{
  Reply, rewrite_path, copy_header, copy_body, proxy, error_handler,
}

-- With a rewrite prefix, a path under the route's prefix keeps what follows that prefix; without
-- one, every path is kept whole.
pub rewrite_path-append :
    (path_prefix rewrite_prefix rest : Text) (c : ℕ)
    → (rewrite_path path_prefix (c ∷ rewrite_prefix) (path_prefix ++ rest)
        ≡ c ∷ (rewrite_prefix ++ rest))
      × (rewrite_path path_prefix [] (path_prefix ++ rest) ≡ path_prefix ++ rest)
unfolding rewrite_path
rewrite_path-append p r rest c = rw (trim_prefix-append p rest) (refl, refl)

pub rewrite_path_lem :
    (path_prefix rewrite_prefix rest path : Text)
    → path ≡ path_prefix ++ rest
    → rewrite_path path_prefix rewrite_prefix path
      ≡ (if is_empty rewrite_prefix then path else rewrite_prefix ++ rest)
unfolding rewrite_path
rewrite_path_lem p [] rest path e = refl
rewrite_path_lem p (c ∷ r) rest path e = rw e (rewrite_path-append p r rest c).0

pub copy_header_keeps :
    (h : Header) (sw : StatusWriter)
    → ((copy_header h sw).status ≡ sw.status)
      × ((copy_header h sw).writer.sent ≡ sw.writer.sent)
      × ((copy_header h sw).writer.gone ≡ sw.writer.gone)
unfolding copy_header add_header
copy_header_keeps [] sw = (refl, refl, refl)
copy_header_keeps ((name, value) ∷ h) sw =
    copy_header_keeps h (record sw { writer = add_header name value sw.writer })

-- Once a status is sent, copying the body changes neither it nor what is recorded, and the copy is
-- complete unless the client is gone.
pub copy_body_keeps :
    (pieces : List Text) (sw : StatusWriter) (first : ℕ × Header)
    → sw.writer.sent ≡ some first
    → ((copy_body pieces sw).0.status ≡ sw.status)
      × ((copy_body pieces sw).0.writer.sent ≡ some first)
      × ((copy_body pieces sw).1 ≡ (is_empty pieces || not sw.writer.gone))
unfolding copy_body record_write write
copy_body_keeps [] sw first h = (refl, h, refl)
copy_body_keeps (piece ∷ pieces) sw first h =
    ground (arith, copy_body_keeps pieces (record_write piece sw).0 first)

-- What the client of a forwarded request is answered, and whether it gets all of it.
abbrev pub answer_status : Option Reply → ℕ
answer_status none = status_bad_gateway
answer_status (some reply) = reply.status

abbrev pub is_copied : Writer → Option Reply → Bool
is_copied w none = true
is_copied w (some reply) = (is_empty reply.pieces || not w.gone) && reply.complete

-- A JSON answer to a client to whom nothing was sent: its status, and its body if it is there.
pub write_json_lem :
    (status : ℕ) (message : Text) (w : Writer)
    → w.sent ≡ none
    → (status_of (write_json status message w) ≡ some status)
      × ((write_json status message w).body
          ≡ (if w.gone then w.body else w.body ++ envelope status message))
unfolding write_json write write_header set_header
write_json_lem status message w h = ground arith

error_handler_lem :
    (w : Writer)
    → w.sent ≡ none
    → ((error_handler (status_writer w)).status ≡ status_bad_gateway)
      × (status_of (error_handler (status_writer w)).writer ≡ some status_bad_gateway)
unfolding error_handler record_header record_write write write_header set_header
error_handler_lem w h = ground arith

reply_lem :
    (reply : Reply) (w : Writer)
    → w.sent ≡ none
    → let sw = record_header reply.status (copy_header reply.header (status_writer w)) in
      (sw.status ≡ reply.status)
      × (status_of sw.writer ≡ some reply.status)
      × (sw.writer.gone ≡ w.gone)
      × (sw.writer.sent ≢ none)
unfolding record_header write_header
reply_lem reply w h = ground (arith, copy_header_keeps reply.header (status_writer w))

pub proxy_lem :
    (o : Option Reply) (w : Writer)
    → w.sent ≡ none
    → ((proxy o (status_writer w)).0.status ≡ answer_status o)
      × (status_of (proxy o (status_writer w)).0.writer ≡ some (answer_status o))
      × ((proxy o (status_writer w)).1 ≡ is_copied w o)
unfolding proxy
proxy_lem none w h = let (a, b) = error_handler_lem w h in (a, b, refl)
proxy_lem (some reply) w h =
    let sw = record_header reply.status (copy_header reply.header (status_writer w)) in
    let (status, answered, gone, was_sent) = reply_lem reply w h in
    let (first, e) = eq_some_of_ne_none sw.writer.sent was_sent in
    let (kept, still, copied) = copy_body_keeps reply.pieces sw first e in ground arith
