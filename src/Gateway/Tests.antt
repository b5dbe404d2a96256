-- ===== src/Gateway/Tests.antt =====
-- A small gateway: a selector of the first node, a breaker that opens after one failure, a bucket
-- of tokens, and the theorems at its requests.
mod Routes
mod Startup
use kratos_micro_layout.Prelude.{
  ℕ, zero, suc, ◌≡◌, ◌≢◌, ◌≤◌, refl, arith, Bool, true, false, not, Option, none, some, List, [],
  ◌∷◌, ◌++◌, Text, codes, String, leb, is_empty, if◌then◌else◌, inl, inr, Any, ◌⊎◌, All, ◌++◌, ap,
}
use kratos_micro_layout.Prelude.Int.{ℤ, pos}
use kratos_micro_layout.Prelude.Result.{Result, ok, err}
use kratos_micro_layout.Time.{second}
use kratos_micro_layout.Text.{trim_prefix, has_prefix, split, join}
use kratos_micro_layout.Http.{
  Header, Request, Writer, new_writer, status_of, status_service_unavailable, get, set,
  write_header,
}
use kratos_micro_layout.Middleware.RateLimit.{Buckets}
use kratos_micro_layout.Gateway.Outbound.{
  outbound, hop_by_hop, values, any_name, same_name, forwarded_for, dropped,
}
use kratos_micro_layout.Gateway.Upstream.{
  ServiceNode, Instance, Selector, Discovery, Upstream, new_upstream, refresh, apply, nodes_of,
  endpoint_nodes, loop, select, http_service_name,
}
use kratos_micro_layout.Gateway.Upstream.Laws.{
  IsQualified, select-Serves, Serves-select, Serves, latest, found,
}
use kratos_micro_layout.Gateway.Breaker.{Floats, BreakerSettings, ForwardError, is_successful}
use kratos_micro_layout.Gateway.Writers.{envelope}
use kratos_micro_layout.Gateway.Handler.{
  Reply, Gobreaker, Rejection, open_state, Handler, serve_http, forward, conclude, proxy,
  rewrite_path, director,
}
use kratos_micro_layout.Gateway.Handler.Serve.{
  serve_http_status, serve_http_settles, serve_http_sheds, serve_http_proxied, expected_status,
  is_failure, is_shed,
}

abbrev pub first_node : List ServiceNode → Option ServiceNode
first_node [] = none
first_node (n ∷ ns) = some n

pub first_node-Any :
    (ns : List ServiceNode) (n : ServiceNode) → first_node ns ≡ some n → Any (λ m. m ≡ n) ns
first_node-Any [] n h = cc
first_node-Any (m ∷ ns) n h = inl (cc)

pub first_node-some : (ns : List ServiceNode) → ns ≢ [] → first_node ns ≢ none
first_node-some [] h = absurd (h refl)
first_node-some (m ∷ ns) h = λ e. cc

abbrev pub first : Selector
first = record {
  State = List ServiceNode;
  initial = [];
  apply = λ ns s. ns;
  select = λ s k. first_node s;
  select_initial = λ k. refl;
  select_applied = λ ns s k n h. first_node-Any ns n h;
  select_some = λ ns s k h. first_node-some ns h;
}

-- It opens with the first failure.
abbrev pub trigger : Gobreaker
trigger = record {
  State = Bool;
  create = λ settings. false;
  admit = λ b. (b, if b then some open_state else none);
  settle = λ good b. not good;
}

abbrev pub tokens_left : ℕ → ℕ × Bool
tokens_left zero = (0, false)
tokens_left (suc n) = (n, true)

abbrev pub tokens : Buckets
tokens = record { Bucket = ℕ; new_limiter = λ qps burst. 1; allow = tokens_left }

-- Every endpoint but the empty one is the address of a node.
abbrev pub parse : Text → Option ServiceNode
parse [] = none
parse (c ∷ s) = some (record { scheme = codes "http"; address = c ∷ s })

abbrev pub user_node : ServiceNode
user_node = record { scheme = codes "http"; address = codes "10.0.0.2:80" }

abbrev pub first_list : List Instance
first_list = record { endpoints = codes "10.0.0.1:80" ∷ [] } ∷ []

abbrev pub second_list : List Instance
second_list = record { endpoints = [] ∷ codes "10.0.0.2:80" ∷ [] } ∷ []

-- The first lookup fails; the watcher then gives two lists, and fails.
abbrev pub registry : Discovery
registry = record {
  service = none;
  watchable = true;
  events = some first_list ∷ some second_list ∷ none ∷ some first_list ∷ [];
}

abbrev pub started : Upstream (List ServiceNode)
started = record {
  name = codes "user.http";
  sel = [];
  watched = true;
  cancelled = false;
  stopped = false;
  looping = true;
}

starts : new_upstream parse first registry (codes "user.http") ≡ ok started
unfolding new_upstream refresh
starts = refl

Serves-user :
    Serves parse user_node (latest parse first (found parse first registry) registry.events)
Serves-user = inl (inr (inl refl))

selected : select parse first (loop parse first registry.events started) 0 ≡ some user_node
unfolding select loop apply nodes_of endpoint_nodes
selected = refl

select-Serves_example : Serves parse user_node second_list
select-Serves_example =
    select-Serves parse first registry (codes "user.http") 0 user_node starts selected

Serves-select_example :
    (m : ServiceNode) × (select parse first (loop parse first registry.events started) 7 ≡ some m)
    × Serves parse m second_list
Serves-select_example =
    Serves-select parse first registry (codes "user.http") 7 user_node starts Serves-user

abbrev pub running : Upstream (List ServiceNode)
running = record started { sel = user_node ∷ [] }

abbrev pub guarded : Handler (List ServiceNode) Bool
guarded = record {
  upstream = running;
  path_prefix = codes "/user";
  rewrite_prefix = codes "/api";
  breaker = some (false, is_successful);
}

abbrev pub request : Request
request = record {
  remote_ip = some (codes "192.0.2.7");
  method = codes "GET";
  host = codes "gateway";
  tls = false;
  scheme = [];
  url_host = [];
  path = codes "/user/v1/me";
  header = [];
}

-- A backend that fails.
abbrev pub failing : Request → Option Reply
failing req =
    some (record { status = 500; header = []; pieces = codes "oops" ∷ []; complete = true })

serve_http_status_example :
    status_of (serve_http parse first trigger failing guarded 0 request new_writer).1.writer
    ≡ some 500
unfolding select
serve_http_status_example =
    serve_http_status parse first trigger failing guarded 0 request new_writer refl

serve_http_settles_example :
    (serve_http parse first trigger failing guarded 0 request new_writer).0.breaker
    ≡ some (
      not (not (is_failure parse first trigger failing guarded 0 request new_writer)),
      is_successful,
    )
serve_http_settles_example =
    serve_http_settles parse first trigger failing guarded 0 request new_writer false false refl
      refl refl

-- A request with a field of its connection only, and the request as the backend gets it.
abbrev carried : Request
carried = record request {
  header =
      (codes "Accept", codes "text/html")
      ∷ (codes "Connection", codes "close, x-debug")
      ∷ (codes "X-Debug", codes "1")
      ∷ (codes "X-Forwarded-For", codes "198.51.100.4")
      ∷ (codes "Transfer-Encoding", codes "gzip")
      ∷ [];
}

abbrev forwarded : Request
forwarded = record request {
  scheme = codes "http";
  url_host = codes "10.0.0.2:80";
  path = codes "/api/v1/me";
  header =
      (codes "Accept", codes "text/html")
      ∷ (codes "X-Forwarded-For", codes "198.51.100.4, 192.0.2.7")
      ∷ (codes "User-Agent", [])
      ∷ [];
}

relays :
    outbound (record carried {
      scheme = codes "http";
      url_host = codes "10.0.0.2:80";
      path = codes "/api/v1/me";
    })
    ≡ forwarded
unfolding outbound split get set join values
relays = refl

proxies :
    (serve_http parse first trigger failing guarded 0 carried new_writer).1.proxied ≡ some forwarded
unfolding serve_http forward select conclude director rewrite_path trim_prefix has_prefix
proxies = ap some relays

-- Without a known address and with its own agent, a request of a protocol upgrade.
upgrades :
    (outbound (record request {
      remote_ip = none;
      header =
          (codes "User-Agent", codes "curl")
          ∷ (codes "Connection", codes "keep-alive, Upgrade")
          ∷ (codes "Upgrade", codes "websocket")
          ∷ (codes "Te", codes "trailers, deflate")
          ∷ [];
    })).header
    ≡ (codes "User-Agent", codes "curl")
      ∷ (codes "Te", codes "trailers")
      ∷ (codes "Connection", codes "Upgrade")
      ∷ (codes "Upgrade", codes "websocket")
      ∷ []
unfolding outbound split get set
upgrades = refl

accept_ne : codes "Accept" ≢ forwarded_for
accept_ne e = ground (arith, e)

serve_http_proxied_example :
    (node : ServiceNode) × (select parse first running 0 ≡ some node)
    × (is_shed parse first trigger failing guarded ≡ false)
    × (codes "http" ≡ node.scheme)
    × (codes "10.0.0.2:80" ≡ node.address)
    × (codes "GET" ≡ codes "GET")
    × (codes "/api/v1/me" ≡ codes "/api/v1/me")
    × (get (codes "Accept") forwarded.header ≡ get (codes "Accept") carried.header)
    × All (λ hop. get hop forwarded.header ≡ []) dropped
    × ((before : Text) × (get forwarded_for forwarded.header ≡ before ++ codes "192.0.2.7"))
unfolding hop_by_hop any_name split
serve_http_proxied_example =
    serve_http_proxied parse first trigger failing guarded 0 carried new_writer forwarded
      (codes "192.0.2.7") (codes "/v1/me") (codes "Accept") proxies refl refl refl accept_ne
