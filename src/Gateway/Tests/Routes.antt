-- ===== src/Gateway/Tests/Routes.antt =====
-- The theorems on breakers, the CORS filter and the server at concrete settings.
use kratos_micro_layout.Prelude.{
  ℕ, suc, ◌≡◌, ◌≢◌, ◌≤◌, ◌<◌, refl, arith, Bool, true, false, none, some, List, [], ◌∷◌, Text,
  codes, leb, if◌then◌else◌, inl, inr, All,
}
use kratos_micro_layout.Prelude.Int.{ℤ, pos, ◌<ℤ◌}
use kratos_micro_layout.Prelude.Result.{ok, err}
use kratos_micro_layout.Text.Laws.{text_eq-false}
use kratos_micro_layout.Http.{Request, Serve, new_writer, get, write_header, status_no_content}
use kratos_micro_layout.Gateway.Upstream.{
  ServiceNode, Discovery, Upstream, new_upstream, refresh, close, http_service_name,
}
use kratos_micro_layout.Gateway.Breaker.{
  Floats, BreakerSettings, Settings, new_breaker, configured, or_default, effective_ratio,
}
use kratos_micro_layout.Gateway.Breaker.{new_breaker-positive, all_failing_trips}
use kratos_micro_layout.Gateway.Cors.{CorsConfig, cors_filter, request_method}
use kratos_micro_layout.Gateway.Cors.Laws.{IsListed, Answers, cors_filter_preflight}
use kratos_micro_layout.Gateway.Stack.{route, cors_filter-Answers}
use kratos_micro_layout.Gateway.Server.{
  Route, RateLimit, ServerConfig, ServerOption, Server, incomplete, address, cors_option, new,
  cleanup, add_routes, server_options, breaker_settings,
}
use kratos_micro_layout.Gateway.Server.Laws.{IsUndone, IsWired, IsClosed, new-err, new-IsWired}
use kratos_micro_layout.Middleware.RateLimit.{limited, rate_limit_filter}
use kratos_micro_layout.Gateway.Handler.{new_handler}
use kratos_micro_layout.Text.{has_suffix, has_prefix}
use kratos_micro_layout.Gateway.Tests.{
  parse, first, trigger, tokens, registry, request, started, failing, guarded,
}

-- Numbers as floats, with a quotient of 1 for all that reach the divisor, and 0 below.
abbrev coarse_div : ℕ → ℕ → ℕ
coarse_div a n = if leb n a then 1 else 0

pub coarse_mono :
    (r a b n : ℕ) → a ≤ b → leb r (coarse_div a n) ≡ true → leb r (coarse_div b n) ≡ true
coarse_mono r a b n le h = ground arith

pub coarse_self : (n : ℕ) → 0 < n → coarse_div n n ≡ 1
coarse_self n h = ground arith

pub coarse_zero : (n : ℕ) → 0 < n → coarse_div 0 n ≡ 0
coarse_zero n h = ground arith

abbrev pub coarse : Floats
coarse = record {
  Float = ℕ;
  of_uint32 = λ n. n;
  div = coarse_div;
  leb_float = leb;
  zero_float = 0;
  one_float = 1;
  six_tenths = 1;
  div_mono = coarse_mono;
  div_self = coarse_self;
  div_zero = coarse_zero;
  six_tenths_pos = refl;
}

-- Nothing is set but the sample size.
abbrev small : BreakerSettings ℕ
small = record {
  max_requests = 0;
  interval = pos 0;
  timeout = pos 0;
  failure_ratio = 0;
  min_requests = 3;
}

abbrev made : Settings
made = configured coarse (codes "user.http") small

makes : new_breaker coarse (codes "user.http") (some small) ≡ some made
unfolding new_breaker
makes = refl

new_breaker-positive_example :
    (b : Settings) × (new_breaker coarse (codes "user.http") (some small) ≡ some b)
    × (0 < b.max_requests)
    × (pos 0 <ℤ b.interval)
    × (pos 0 <ℤ b.timeout)
    × (b.ready_to_trip (record { requests = 0; total_failures = 0 }) ≡ false)
    × (b.ready_to_trip (record { requests = 25; total_failures = 0 }) ≡ false)
new_breaker-positive_example = new_breaker-positive coarse (codes "user.http") small 0 25

low_ratio : leb (effective_ratio coarse 0) 1 ≡ true
unfolding effective_ratio
low_ratio = refl

sample : or_default 3 20 ≤ 3
unfolding or_default
sample = omega arith

all_failing_trips_example : made.ready_to_trip (record { requests = 3; total_failures = 3 }) ≡ true
all_failing_trips_example =
    all_failing_trips coarse (codes "user.http") small 3 makes low_ratio sample

abbrev pub policy : CorsConfig
policy = record {
  allow_origins = codes "https://a.example" ∷ codes "https://b.example" ∷ [];
  allow_methods = codes "GET" ∷ codes "POST" ∷ [];
  allow_headers = [];
  allow_credentials = true;
  max_age = pos 600;
}

abbrev seconds : ℤ → ℤ
seconds d = d

-- A handler that counts its calls and answers 200.
abbrev counter : Serve ℕ
counter n req w = (suc n, write_header 200 w)

abbrev b_request : Request
b_request = record request { header = (codes "Origin", codes "https://b.example") ∷ [] }

abbrev asking : Request
asking = record request {
  method = codes "OPTIONS";
  header = (codes "Origin", codes "https://b.example") ∷ (request_method, codes "PUT") ∷ [];
}

listed : IsListed policy (codes "https://b.example")
listed = inr (inl (inr refl))

origin_b : get (codes "Origin") b_request.header ≡ codes "https://b.example"
unfolding get
origin_b = refl

some_origin : get (codes "Origin") b_request.header ≢ []
some_origin = rw origin_b (text_eq-false (codes "https://b.example") [] refl)

asking_origin : get (codes "Origin") asking.header ≡ codes "https://b.example"
unfolding get
asking_origin = refl

asked_method : get request_method asking.header ≡ codes "PUT"
unfolding get
asked_method = refl

cors_filter_preflight_example :
    let (n, w) = cors_filter seconds policy counter 4 asking new_writer in
    (n ≡ 4) × Answers status_no_content (get (codes "Origin") asking.header) w
cors_filter_preflight_example =
    cors_filter_preflight seconds policy counter 4 asking new_writer
      (rw asking_origin (text_eq-false (codes "https://b.example") [] refl))
      (rw asking_origin listed) refl (rw asked_method (text_eq-false (codes "PUT") [] refl)) refl

cors_filter-Answers_example :
    (code : ℕ) × Answers code
      (get (codes "Origin") b_request.header)
      (cors_filter seconds policy
        (limited tokens (route parse first trigger failing 0))
        (1, guarded)
        b_request
        new_writer).1
cors_filter-Answers_example =
    cors_filter-Answers parse first trigger failing seconds policy tokens 0 1 guarded b_request
      new_writer some_origin (rw origin_b listed) refl

abbrev pub shop : Route
shop = record { path_prefix = codes "/shop"; service = codes "shop"; rewrite_prefix = [] }

abbrev nameless : Route
nameless = record { path_prefix = codes "/other"; service = []; rewrite_prefix = [] }

abbrev everywhere : Text → Discovery
everywhere service = registry

abbrev shop_upstream : Upstream (List ServiceNode)
shop_upstream = record started { name = codes "shop.http" }

abbrev pub config : ServerConfig
config = record { addr = codes ":8000"; timeout = pos 0 }

abbrev pub unlimited : RateLimit
unlimited = record { enabled = false; qps = pos 0; burst = pos 0 }

abbrev shop_server : Server (ServerOption ℕ) (List ServiceNode) Bool
shop_server = record {
  options = address (codes ":8000") ∷ cors_option policy ∷ [];
  routes =
      (codes "/shop", new_handler first trigger coarse shop_upstream (codes "/shop") [] none) ∷ [];
  upstreams = shop_upstream ∷ [];
}

builds :
    new parse first trigger coarse everywhere tokens config (some policy) (shop ∷ []) unlimited none
    ≡ ok shop_server
unfolding new add_routes server_options breaker_settings rate_limit_filter new_upstream refresh
    http_service_name has_suffix has_prefix new_handler new_breaker
builds = refl

new-IsWired_example :
    IsWired parse first trigger coarse everywhere (breaker_settings none) (shop ∷ []) shop_server
    × All IsClosed (cleanup parse first trigger coarse everywhere (shop_upstream ∷ []))
new-IsWired_example =
    new-IsWired parse first trigger coarse everywhere tokens config (some policy) (shop ∷ [])
      unlimited none shop_server builds

fails :
    new parse first trigger coarse everywhere tokens config
      (some policy)
      (shop ∷ nameless ∷ [])
      unlimited
      none
    ≡ err (
      incomplete (codes "/other") [],
      record shop_upstream { cancelled = true; stopped = true } ∷ [],
    )
unfolding new add_routes server_options breaker_settings new_upstream refresh http_service_name
    has_suffix has_prefix cleanup close
fails = refl

new-err_example :
    IsUndone parse first trigger coarse everywhere []
      (shop ∷ nameless ∷ [])
      (record shop_upstream { cancelled = true; stopped = true } ∷ [])
new-err_example =
    new-err parse first trigger coarse everywhere tokens config (some policy) (shop ∷ nameless ∷ [])
      unlimited none (incomplete (codes "/other") [])
      (record shop_upstream { cancelled = true; stopped = true } ∷ []) fails
