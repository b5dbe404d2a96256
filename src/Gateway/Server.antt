-- ===== src/Gateway/Server.antt =====
-- app/gateway/internal/server/server.go: the server with its filters and one proxy per route.
-- How kratos combines the options of a server is not in this model, which keeps their list.
pub mod Laws
use kratos_micro_layout.Prelude.{
  ℕ, Bool, true, false, ◌||◌, Option, none, some, List, [], ◌∷◌, ◌++◌, map, Text, is_empty,
  if◌then◌else◌,
}
use kratos_micro_layout.Prelude.Int.{ℤ, pos, ltb_ℤ}
use kratos_micro_layout.Prelude.Result.{Result, ok, err}
use kratos_micro_layout.Middleware.RateLimit.{Buckets, rate_limit_filter}
use kratos_micro_layout.Gateway.Upstream.{
  ServiceNode, Selector, Discovery, Upstream, http_service_name, new_upstream, close,
}
use kratos_micro_layout.Gateway.Breaker.{Floats, BreakerSettings}
use kratos_micro_layout.Gateway.Handler.{Gobreaker, Handler, new_handler}
use kratos_micro_layout.Gateway.Cors.{CorsConfig}

-- conf.Route, conf.CircuitBreaker, conf.RateLimit, and conf.Server as far as it is read
pub record Route : Type 0 where
  pub path_prefix : Text
  pub service : Text
  pub rewrite_prefix : Text

pub record CircuitBreaker (F : Type 0) : Type 0 where
  pub enabled : Bool
  pub settings : BreakerSettings F

pub record RateLimit : Type 0 where
  pub enabled : Bool
  pub qps : ℤ
  pub burst : ℤ

pub record ServerConfig : Type 0 where
  pub addr : Text
  pub timeout : ℤ

-- The options that khttp.NewServer is given.
pub data ServerOption (B : Type 0) : Type 0 where
  address : Text → ServerOption B
  timeout : ℤ → ServerOption B
  cors_option : CorsConfig → ServerOption B
  limit_option : B → ServerOption B

pub data RouteError : Type 0 where
  incomplete : Text → Text → RouteError
  unwatched : Text → RouteError

-- The server with its routes in the order of their registration; `upstreams` is what its cleanup
-- closes.
pub record Server (O S B : Type 0) : Type 0 where
  pub options : List O
  pub routes : List (Text × Handler S B)
  pub upstreams : List (Upstream S)

-- breakerSettings
unfoldable pub breaker_settings :
    {F : Type 0} → Option (CircuitBreaker F) → Option (BreakerSettings F)
breaker_settings none = none
breaker_settings (some c) = if c.enabled then some c.settings else none

-- The option for a filter that is there.
if_present : {A O : Type 0} → (A → O) → Option A → List O
if_present option none = []
if_present option (some x) = option x ∷ []

-- The options of the server, outermost filter first.
unfoldable pub server_options :
    (b : Buckets) → ServerConfig → Option CorsConfig → RateLimit → List (ServerOption b.Bucket)
unfolding if_present
server_options b c cors rl =
    let timed = if ltb_ℤ (pos 0) c.timeout then timeout c.timeout ∷ [] else [] in
    let limiter = rate_limit_filter b rl.enabled rl.qps rl.burst in
    address c.addr ∷ (timed ++ (if_present cors_option cors ++ if_present limit_option limiter))

module _ (parse : Text → Option ServiceNode) (s : Selector) (g : Gobreaker) (f : Floats)
    (discovery : Text → Discovery) where
  -- cleanup
  unfoldable pub cleanup : List (Upstream s.State) → List (Upstream s.State)
  cleanup us = map (λ u. close parse s u) us

  -- The loop over the routes. An error comes with the upstreams as the cleanup left them.
  unfoldable pub add_routes :
      {O : Type 0}
      → Option (BreakerSettings f.Float)
      → List Route
      → Server O s.State g.State
      → Result (RouteError × List (Upstream s.State)) (Server O s.State g.State)
  unfolding cleanup
  add_routes settings [] sv = ok sv
  add_routes settings (r ∷ rs) sv =
      if is_empty r.path_prefix || is_empty r.service
      then err (incomplete r.path_prefix r.service, cleanup sv.upstreams)
      else elim (new_upstream parse s (discovery (http_service_name r.service))
          (http_service_name r.service)) [
            | err u ↦ err (unwatched r.path_prefix, cleanup sv.upstreams)
            | ok u ↦ add_routes settings rs (record sv {
              routes =
                  sv.routes
                  ++ (r.path_prefix, new_handler s g f u r.path_prefix r.rewrite_prefix settings)
                    ∷ [];
              upstreams = sv.upstreams ++ u ∷ [];
            })
          ]

  -- New
  unfoldable pub new :
      (b : Buckets)
      → ServerConfig
      → Option CorsConfig
      → List Route
      → RateLimit
      → Option (CircuitBreaker f.Float)
      → Result
          (RouteError × List (Upstream s.State))
          (Server (ServerOption b.Bucket) s.State g.State)
  unfolding add_routes server_options breaker_settings
  new b c cors rs rl circuit =
      add_routes (breaker_settings circuit) rs
        (record { options = server_options b c cors rl; routes = []; upstreams = [] })
