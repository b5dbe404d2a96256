-- ===== src/Gateway/Handler.antt =====
-- app/gateway/internal/proxy/handler.go: one request on its way through the proxy.
-- The circuit breaker of gobreaker is a parameter, and so is the way of a request behind
-- httputil.ReverseProxy: its transport and the backend.
pub mod Headers
pub mod Laws
pub mod Serve
use kratos_micro_layout.Prelude.{
  ℕ, Bool, true, false, not, ◌&&◌, ◌||◌, Option, none, some, List, [], ◌∷◌, ◌++◌, Text, codes,
  String, leb, is_empty, if◌then◌else◌,
}
use kratos_micro_layout.Text.{trim_prefix}
use kratos_micro_layout.Http.{
  Header, Request, Writer, add_header, status_internal_server_error, status_bad_gateway,
  status_service_unavailable,
}
use kratos_micro_layout.Gateway.Outbound.{outbound}
use kratos_micro_layout.Gateway.Upstream.{ServiceNode, Selector, Upstream, select}
use kratos_micro_layout.Gateway.Breaker.{
  Settings, ForwardError, upstream_error, no_node, Floats, BreakerSettings, new_breaker,
  is_successful,
}
use kratos_micro_layout.Gateway.Writers.{
  ResponseWriter, client_writer, recording_writer, StatusWriter, status_writer, record_header,
  record_write, write_json,
}

-- What a backend answers: its body in the pieces in which it arrives, and whether all of it does.
pub record Reply : Type 0 where
  pub status : ℕ
  pub header : Header
  pub pieces : List Text
  pub complete : Bool

-- gobreaker.CircuitBreaker. Execute admits a call or rejects it at once (its breaker is open, or
-- half-open with enough probes), and settles an admitted call with its success; a panic of the
-- call is settled as a failure and goes on.
pub data Rejection : Type 0 where
  open_state too_many_requests : Rejection

pub record Gobreaker : Type 1 where
  pub State : Type 0
  pub create : Settings → State
  pub admit : State → State × Option Rejection
  pub settle : Bool → State → State

-- How `forward` ended: with its result, or by the panic with which ReverseProxy ends a response
-- that it could not copy.
pub data Finish : Type 0 where
  returned : Option ForwardError → Finish
  panicked : Finish

pub record Forwarded : Type 0 where
  pub writer : Writer
  pub proxied : Option Request
  pub reported : Option Bool
  pub finish : Finish

pub record Handler (S B : Type 0) : Type 0 where
  pub upstream : Upstream S
  pub path_prefix : Text
  pub rewrite_prefix : Text
  pub breaker : Option (B × (Option ForwardError → Bool))

-- director, for the node in the request's context
unfoldable pub rewrite_path : Text → Text → Text → Text
rewrite_path path_prefix rewrite_prefix path =
    if is_empty rewrite_prefix then path else rewrite_prefix ++ trim_prefix path path_prefix

unfoldable pub director : {S B : Type 0} → Handler S B → ServiceNode → Request → Request
unfolding rewrite_path
director h node req = record req {
  scheme = node.scheme;
  url_host = node.address;
  path = rewrite_path h.path_prefix h.rewrite_prefix req.path;
}

-- errorHandler
unfoldable pub error_handler : StatusWriter → StatusWriter
unfolding write_json
error_handler sw = write_json status_bad_gateway (codes "upstream request failed") sw

-- ReverseProxy copies the header, sends the status, and copies the body until a piece fails; the
-- flag is whether the copy was complete.
pub copy_header : Header → StatusWriter → StatusWriter
copy_header [] sw = sw
copy_header ((name, value) ∷ h) sw =
    copy_header h (record sw { writer = add_header name value sw.writer })

pub copy_body : List Text → StatusWriter → StatusWriter × Bool
copy_body [] sw = (sw, true)
copy_body (piece ∷ pieces) sw =
    let (sw', good) = record_write piece sw in
    let rest = copy_body pieces sw' in if good then rest else (sw', false)

unfoldable pub proxy : Option Reply → StatusWriter → StatusWriter × Bool
unfolding copy_header copy_body error_handler
proxy none sw = (error_handler sw, true)
proxy (some reply) sw =
    let (sw', copied) =
      copy_body reply.pieces (record_header reply.status (copy_header reply.header sw)) in
    (sw', copied && reply.complete)

-- What Execute settles an admitted call with.
unfoldable pub success : (Option ForwardError → Bool) → Finish → Bool
success test (returned result) = test result
success test panicked = false

module _ (s : Selector) (g : Gobreaker) where
  -- NewHandler; the breaker comes with the test of success that it was given.
  unfoldable pub new_handler :
      (f : Floats)
      → Upstream s.State
      → Text
      → Text
      → Option (BreakerSettings f.Float)
      → Handler s.State g.State
  new_handler f u path_prefix rewrite_prefix settings = record {
    upstream = u;
    path_prefix = path_prefix;
    rewrite_prefix = rewrite_prefix;
    breaker = elim (new_breaker f u.name settings) [
      | none ↦ none
      | some b ↦ some (g.create b, b.is_successful)
    ];
  }

module _ (parse : Text → Option ServiceNode) (s : Selector) (g : Gobreaker)
    (backend : Request → Option Reply) where
  -- The part of `forward` behind the copy of the response.
  unfoldable pub conclude : Request → StatusWriter × Bool → Forwarded
  conclude sent (sw, copied) = record {
    writer = sw.writer;
    proxied = some sent;
    reported = if copied then some sw.failed else none;
    finish =
        if copied
        then returned
            (if leb status_internal_server_error sw.status then some upstream_error else none)
        else panicked;
  }

  -- forward; the number is the choice of the selector.
  unfoldable pub forward : Handler s.State g.State → ℕ → Request → Writer → Forwarded
  unfolding conclude
  forward h k req w = elim (select parse s h.upstream k) [
    | none ↦ record {
      writer = write_json status_service_unavailable (codes "no upstream node available") w;
      proxied = none;
      reported = none;
      finish = returned (some no_node);
    }
    | some node ↦
        let sent = outbound (director h node req) in
        conclude sent (proxy (backend sent) (status_writer w))
  ]

  -- ServeHTTP
  unfoldable pub serve_http :
      Handler s.State g.State → ℕ → Request → Writer → Handler s.State g.State × Forwarded
  unfolding forward success
  serve_http h k req w = elim h.breaker [
    | none ↦ (h, forward h k req w)
    | some (b, test) ↦
        let (b', rejected) = g.admit b in
        elim rejected [
          | some _ ↦ (
            record h { breaker = some (b', test) },
            record {
              writer = write_json status_service_unavailable (codes "upstream circuit open") w;
              proxied = none;
              reported = none;
              finish = returned none;
            },
          )
          | none ↦
              let out = forward h k req w in
              (record h { breaker = some (g.settle (success test out.finish) b', test) }, out)
        ]
  ]
