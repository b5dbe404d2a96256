-- ===== src/Gateway/Tests/Startup.antt =====
-- The theorems on the gateway's start at a small configuration.
use kratos_micro_layout.Prelude.{
  ℕ, ◌≡◌, refl, Bool, false, Option, none, some, List, [], ◌∷◌, ◌++◌, Text, codes, All, is_empty,
}
use kratos_micro_layout.Prelude.Int.{pos}
use kratos_micro_layout.Prelude.Result.{Result, ok}
use kratos_micro_layout.Text.{equal_fold, trim_space, to_lower, trim_prefix}
use kratos_micro_layout.Log
use kratos_micro_layout.Nacos
use kratos_micro_layout.Nacos.{
  Environment, ClientParam, ServerConfig, Registry, new_registry, new_config_source, server_configs,
  server_configs_of, server_config, client_param,
}
use kratos_micro_layout.Gateway.Upstream.{ServiceNode, Discovery, new_upstream}
use kratos_micro_layout.Gateway.Server.{Server, ServerOption, new}
use kratos_micro_layout.Gateway.Server.Laws.{IsRoutable}
use kratos_micro_layout.Gateway.Main
use kratos_micro_layout.Gateway.Main.{
  Bootstrap, LogConfig, Source, file, ConfigLibrary, final_config, local_config, logger, opened,
  closed, Ending, finished, nacos_options, local_sources, load_config,
}
use kratos_micro_layout.Gateway.Main.Sources.{remote_events, Reads, IsLayered, load_config_sources}
use kratos_micro_layout.Gateway.Main.Ends.{held, clients, leftover, main_releases, main_finished}
use kratos_micro_layout.Gateway.Tests.{parse, first, trigger, tokens, registry}
use kratos_micro_layout.Gateway.Tests.Routes.{coarse, policy, shop, config, unlimited}

-- Every part of an address is a host at the port 8848.
abbrev host_port : Text → Option (Text × Text)
host_port part = some (part, codes "8848")

abbrev scan : Text → Option ℕ
scan port = some 8848

abbrev client : ClientParam → Result ℕ (List ServerConfig)
client param = ok param.servers

abbrev temporary : Text → Text → Text
temporary dir name = codes "/tmp/" ++ (dir ++ (b'/' ∷ name))

abbrev sdk : Environment (List ServerConfig) (List ServerConfig) ℕ
sdk = record {
  split_host_port = host_port;
  scan_uint = scan;
  below_temp = temporary;
  default_group = codes "DEFAULT_GROUP";
  naming_client = client;
  config_client = client;
}

abbrev log_config : LogConfig
log_config = record {
  level = codes "info";
  format = codes "json";
  output = codes "stdout";
  file_path = [];
  add_source = false;
  no_color = false;
  max_size = pos 0;
  max_backups = pos 0;
  max_age = pos 0;
  compress = false;
}

abbrev bootstrap : Bootstrap ℕ
bootstrap = record {
  log = log_config;
  registry = record {
    address = codes "a";
    namespace_id = [];
    group = [];
    username = [];
    password = [];
  };
  server = config;
  cors = some policy;
  routes = [];
  ratelimit = unlimited;
  circuit_breaker = none;
}

-- The local sources have no routes; the remote one adds one.
abbrev scanned : List (Source (List ServerConfig)) → Bootstrap ℕ
scanned (a ∷ b ∷ c ∷ sources) = record bootstrap { routes = shop ∷ [] }
scanned sources = bootstrap

abbrev library : ConfigLibrary (List ServerConfig) ℕ ℕ
library = record {
  Config = List (Source (List ServerConfig));
  load = λ sources. ok sources;
  scan = λ sources. ok (scanned sources);
}

abbrev everywhere : Registry (List ServerConfig) → Text → Discovery
everywhere reg service = registry

abbrev quiet_run : Server (ServerOption ℕ) (List ServiceNode) Bool → Option ℕ
quiet_run sv = none

abbrev flagconf : Text
flagconf = codes "gateway.yaml"

-- The Nacos of the address
abbrev remote_server : List ServerConfig
remote_server = record { scheme = codes "http"; ip_addr = codes "a"; port = 8848 } ∷ []

abbrev all_sources : List (Source (List ServerConfig))
all_sources =
    local_sources flagconf
    ++ Source.remote remote_server (record {
      data_id = codes "gateway.yaml";
      group = codes "DEFAULT_GROUP";
      format = codes "yaml";
    })
      ∷ []

abbrev final : Bootstrap ℕ
final = record bootstrap { routes = shop ∷ [] }

loads : (load_config coarse sdk library flagconf).0 ≡ ok (all_sources, final)
unfolding load_config new_config_source server_configs trim_space Nacos.group_name Nacos.format_of
    to_lower trim_prefix Nacos.ext
loads = refl

load_config_sources_example :
    (first : List (Source (List ServerConfig))) × (local : Bootstrap ℕ) × Reads coarse sdk library
      (local_sources flagconf)
      first
      local
    × (sources : List (Source (List ServerConfig))) × IsLayered coarse sdk library flagconf local
        sources
    × Reads coarse sdk library sources all_sources final
    × ((load_config coarse sdk library flagconf).1
        ≡ opened local_config ∷ closed local_config ∷ remote_events coarse sdk library local)
load_config_sources_example =
    load_config_sources coarse sdk library flagconf all_sources final loads

abbrev run_main : Ending ℕ × List Main.Event
run_main = Main.main coarse sdk library parse first trigger tokens everywhere quiet_run flagconf

main_releases_example : held [] run_main.1 ≡ some (leftover run_main.0 ++ clients run_main.1)
main_releases_example =
    main_releases coarse sdk library parse first trigger tokens everywhere quiet_run flagconf
      all_sources final loads

finishes : run_main.0 ≡ finished
unfolding Main.main new_config_source server_configs Main.new_logger Log.new equal_fold trim_space
    new_registry new new_upstream
finishes = refl

main_finished_example :
    (c : List (Source (List ServerConfig))) × (bc : Bootstrap ℕ) × ((load_config coarse sdk library
        flagconf).0
      ≡ ok (c, bc))
    × (is_empty bc.registry.address ≡ false)
    × (reg : Registry (List ServerConfig)) × (new_registry sdk (nacos_options bc.registry) ≡ ok reg)
    × All (IsRoutable (everywhere reg)) bc.routes
main_finished_example =
    main_finished coarse sdk library parse first trigger tokens everywhere quiet_run flagconf
      finishes
