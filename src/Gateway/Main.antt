-- ===== src/Gateway/Main.antt =====
-- app/gateway/cmd/gateway/main.go: how the gateway starts and ends. The configuration library of
-- kratos, the registry that it makes of a Nacos client and the running of the application are
-- parameters; decorating the logger is left out.
pub mod Ends
pub mod Sources
use kratos_micro_layout.Prelude.{
  ℕ, Bool, true, false, Option, none, some, List, [], ◌∷◌, ◌++◌, Text, codes, String, is_empty,
  if◌then◌else◌,
}
use kratos_micro_layout.Prelude.Int.{ℤ}
use kratos_micro_layout.Prelude.Result.{Result, ok, err}
use kratos_micro_layout.Log
use kratos_micro_layout.Nacos
use kratos_micro_layout.Nacos.{
  ConfigSource, NacosError, Environment, Registry, new_config_source, new_registry,
}
use kratos_micro_layout.Middleware.RateLimit.{Buckets}
use kratos_micro_layout.Gateway.Upstream.{ServiceNode, Selector, Discovery}
use kratos_micro_layout.Gateway.Breaker.{Floats}
use kratos_micro_layout.Gateway.Handler.{Gobreaker}
use kratos_micro_layout.Gateway.Cors.{CorsConfig}
use kratos_micro_layout.Gateway.Server.{Route, CircuitBreaker, RateLimit, ServerConfig, RouteError}
use kratos_micro_layout.Gateway.Server

-- conf.Log and conf.Registry
pub record LogConfig : Type 0 where
  pub level : Text
  pub format : Text
  pub output : Text
  pub file_path : Text
  pub add_source : Bool
  pub no_color : Bool
  pub max_size : ℤ
  pub max_backups : ℤ
  pub max_age : ℤ
  pub compress : Bool

pub record RegistryConfig : Type 0 where
  pub address : Text
  pub namespace_id : Text
  pub group : Text
  pub username : Text
  pub password : Text

-- conf.Bootstrap, as far as it is read
pub record Bootstrap (F : Type 0) : Type 0 where
  pub log : LogConfig
  pub registry : RegistryConfig
  pub server : ServerConfig
  pub cors : Option CorsConfig
  pub routes : List Route
  pub ratelimit : RateLimit
  pub circuit_breaker : Option (CircuitBreaker F)

-- config.Source
pub data Source (D : Type 0) : Type 0 where
  file : Text → Source D
  env : Text → Source D
  remote : D → ConfigSource → Source D

-- config.New and Load for a list of sources, and Scan
pub record ConfigLibrary (D E F : Type 0) : Type 1 where
  pub Config : Type 0
  pub load : List (Source D) → Result E Config
  pub scan : Config → Result E (Bootstrap F)

pub data StartError (E : Type 0) : Type 0 where
  config_error : E → StartError E
  source_error : NacosError E → StartError E
  log_error : Log.OpenError → StartError E
  registry_error : NacosError E → StartError E
  route_error : RouteError → StartError E
  run_error : E → StartError E

-- What the process holds: the local and the final configuration, the client of Nacos behind the
-- config source, the logger, the client behind the registry, and the server with its upstreams.
pub data Resource : Type 0 where
  local_config final_config config_client logger naming_client server : Resource

pub data Event : Type 0 where
  opened closed : Resource → Event

-- How the process ends: a panic runs the deferred calls, os.Exit does not.
pub data Ending (E : Type 0) : Type 0 where
  panicked : StartError E → Ending E
  exited : ℕ → Ending E
  finished : Ending E

-- A function that has deferred the closing of a resource, for how its rest ends.
unfoldable pub deferred : {E : Type 0} → Resource → Ending E × List Event → Ending E × List Event
deferred r (exited n, events) = (exited n, events)
deferred r (panicked e, events) = (panicked e, events ++ closed r ∷ [])
deferred r (finished, events) = (finished, events ++ closed r ∷ [])

abbrev pub nacos_config_data_id : Text
nacos_config_data_id = codes "gateway.yaml"

-- newLogger
unfoldable pub new_logger : LogConfig → Result Log.OpenError Log.Logger
new_logger c = Log.new (record {
  level = c.level;
  format = c.format;
  output = c.output;
  file_path = c.file_path;
  add_source = c.add_source;
  no_color = c.no_color;
  rotation = record {
    max_size = c.max_size;
    max_backups = c.max_backups;
    max_age = c.max_age;
    compress = c.compress;
  };
})

-- The options of Nacos, which two places build from the configuration
abbrev pub nacos_options : RegistryConfig → Nacos.Options
nacos_options r = record {
  address = r.address;
  namespace_id = r.namespace_id;
  group = r.group;
  username = r.username;
  password = r.password;
}

abbrev pub local_sources : {D : Type 0} → Text → List (Source D)
local_sources flagconf = file flagconf ∷ env (codes "KRATOS") ∷ []

module _ {C D E : Type 0} (f : Floats) (nacos : Environment C D E)
    (lib : ConfigLibrary D E f.Float) where
  abbrev pub Loaded : Type 0
  Loaded = lib.Config × Bootstrap f.Float

  -- The second phase of loadConfig, for its sources
  unfoldable pub load_final : List (Source D) → Result (StartError E) Loaded × List Event
  load_final sources = elim (lib.load sources) [
    | err e ↦ (err (config_error e), [])
    | ok c ↦ elim (lib.scan c) [
      | err e ↦ (err (config_error e), opened final_config ∷ [])
      | ok bc ↦ (ok (c, bc), opened final_config ∷ [])
    ]
  ]

  -- The second phase, for the local configuration
  unfoldable pub load_remote : Text → Bootstrap f.Float → Result (StartError E) Loaded × List Event
  unfolding load_final
  load_remote flagconf bc =
      if is_empty bc.registry.address
      then load_final (local_sources flagconf)
      else elim (new_config_source nacos (nacos_options bc.registry) nacos_config_data_id) [
        | err e ↦ (err (source_error e), [])
        | ok (cli, source) ↦
            let (result, events) = load_final (local_sources flagconf ++ remote cli source ∷ []) in
            (result, opened config_client ∷ events)
      ]

  -- loadConfig
  unfoldable pub load_config : Text → Result (StartError E) Loaded × List Event
  unfolding load_remote
  load_config flagconf = elim (lib.load (local_sources flagconf)) [
    | err e ↦ (err (config_error e), [])
    | ok c ↦ elim (lib.scan c) [
      | err e ↦ (err (config_error e), opened local_config ∷ [])
      | ok bc ↦
          let (result, events) = load_remote flagconf bc in
          (result, opened local_config ∷ closed local_config ∷ events)
    ]
  ]

  module _ (parse : Text → Option ServiceNode) (s : Selector) (g : Gobreaker) (b : Buckets)
      (discovery : Registry C → Text → Discovery)
      (run : Server.Server (Server.ServerOption b.Bucket) s.State g.State → Option E) where
    -- main from the construction of the server on
    unfoldable pub serve : Bootstrap f.Float → Registry C → Ending E × List Event
    unfolding deferred
    serve bc reg =
        elim (Server.new parse s g f (discovery reg) b bc.server bc.cors bc.routes bc.ratelimit
          bc.circuit_breaker) [
            | err (e, us) ↦ (panicked (route_error e), [])
            | ok sv ↦
                let end : Ending E = elim (run sv) [
                  | none ↦ finished
                  | some e ↦ panicked (run_error e)
                ] in
                let (ending, events) = deferred server (end, []) in (ending, opened server ∷ events)
          ]

    -- main from the guard of the address on
    unfoldable pub guarded : Bootstrap f.Float → Ending E × List Event
    unfolding serve
    guarded bc =
        if is_empty bc.registry.address
        then (exited 1, [])
        else elim (new_registry nacos (nacos_options bc.registry)) [
          | err e ↦ (panicked (registry_error e), [])
          | ok reg ↦ let (ending, events) = serve bc reg in (ending, opened naming_client ∷ events)
        ]

    -- main from the logger on
    unfoldable pub start : Bootstrap f.Float → Ending E × List Event
    unfolding guarded
    start bc = elim (new_logger bc.log) [
      | err e ↦ (panicked (log_error e), [])
      | ok l ↦
          let (ending, events) = deferred logger (guarded bc) in (ending, opened logger ∷ events)
    ]

    -- main
    unfoldable pub main : Text → Ending E × List Event
    unfolding load_config start
    main flagconf =
        let (result, events) = load_config flagconf in
        elim result [
          | err e ↦ (panicked e, events)
          | ok (c, bc) ↦
              let (ending, more) = deferred final_config (start bc) in (ending, events ++ more)
        ]
