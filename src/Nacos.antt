-- ===== src/Nacos.antt =====
-- pkg/nacos: the connection options (nacos.go) and the config source with its watcher (source.go).
-- The client of Nacos is a parameter: its answers are arguments of the operations.
pub mod Watcher
pub mod Addresses
mod Tests
use mathlib.Core.List.{reverse}
use kratos_micro_layout.Prelude.{
  ℕ, ◌||◌, Bool, true, false, Option, none, some, List, [], ◌∷◌, ◌++◌, Text, text_eq, codes, String,
  ◌==◌, drop, is_empty, if◌then◌else◌,
}
use kratos_micro_layout.Prelude.Result.{Result, ok, err, ◌>>=◌}
use kratos_micro_layout.Text.{split, trim_space, trim_prefix, to_lower}

pub record Options : Type 0 where
  pub address : Text
  pub namespace_id : Text
  pub group : Text
  pub username : Text
  pub password : Text

-- config.KeyValue
pub record KeyValue : Type 0 where
  pub key : Text
  pub value : Text
  pub format : Text

-- constant.ServerConfig, as far as it is set
pub record ServerConfig : Type 0 where
  pub scheme : Text
  pub ip_addr : Text
  pub port : ℕ

-- Options.GroupName; the constant of the SDK is a parameter.
unfoldable pub group_name : Text → Options → Text
group_name default_group o = if is_empty (trim_space o.group) then default_group else o.group

pub data AddressError : Type 0 where
  invalid_address invalid_port : Text → AddressError

module _ (split_host_port : Text → Option (Text × Text)) (scan_uint : Text → Option ℕ) where
  unfoldable pub server_config : Text → Result AddressError ServerConfig
  server_config part = elim (split_host_port (trim_space part)) [
    | none ↦ err (invalid_address part)
    | some hp ↦ elim (scan_uint hp.1) [
      | none ↦ err (invalid_port part)
      | some port ↦ ok (record { scheme = codes "http"; ip_addr = hp.0; port = port })
    ]
  ]

  -- The loop of serverConfigs
  unfoldable pub server_configs_of : List Text → Result AddressError (List ServerConfig)
  unfolding server_config
  server_configs_of [] = ok []
  server_configs_of (part ∷ parts) =
      server_config part >>= (λ sc. server_configs_of parts >>= (λ scs. ok (sc ∷ scs)))

  unfoldable pub server_configs : Options → Result AddressError (List ServerConfig)
  unfolding server_configs_of split
  server_configs o = server_configs_of (split o.address b',')

-- constant.ClientConfig as clientConfig sets it, and filepath.Join below os.TempDir for its names
pub record ClientConfig : Type 0 where
  pub namespace_id : Text
  pub username : Text
  pub password : Text
  pub not_load_cache_at_start : Bool
  pub cache_dir : Text
  pub log_dir : Text

unfoldable pub client_config : (Text → Text → Text) → Options → ClientConfig
client_config below_temp o = record {
  namespace_id = o.namespace_id;
  username = o.username;
  password = o.password;
  not_load_cache_at_start = true;
  cache_dir = below_temp (codes "nacos") (codes "cache");
  log_dir = below_temp (codes "nacos") (codes "log");
}

-- vo.NacosClientParam
pub record ClientParam : Type 0 where
  pub client : ClientConfig
  pub servers : List ServerConfig

-- An error of these functions: of an address, or of the SDK.
pub data NacosError (E : Type 0) : Type 0 where
  address_error : AddressError → NacosError E
  client_error : E → NacosError E

-- The registry that kratos makes of a client.
pub record Registry (C : Type 0) : Type 0 where
  pub client : C
  pub group : Text

-- filepath.Ext: the text from the last dot of the last path element on.
ext_onto : Text → Text → Text
ext_onto acc [] = []
ext_onto acc (c ∷ s) =
    let rest = ext_onto (c ∷ acc) s in if c == b'/' then [] else if c == b'.' then c ∷ acc else rest

unfoldable pub ext : Text → Text
unfolding ext_onto
ext path = ext_onto [] (reverse path)

-- formatOf
unfoldable pub format_of : Text → Text
format_of data_id =
    let e = to_lower (trim_prefix (ext data_id) (codes ".")) in
    if text_eq e (codes "json")
    then codes "json"
    else if text_eq e (codes "xml") || text_eq e (codes "proto") || text_eq e (codes "toml")
    then drop 1 (ext data_id)
    else codes "yaml"

-- What Load and Next make of a content: a blank one is no document.
unfoldable pub document : Text → Text → Text → List KeyValue
document data_id format content =
    if is_empty (trim_space content)
    then []
    else record { key = data_id; value = content; format = format } ∷ []

pub record ConfigSource : Type 0 where
  pub data_id : Text
  pub group : Text
  pub format : Text

-- configSource.Load, for the answer of GetConfig
unfoldable pub load : {E : Type 0} → Result E Text → ConfigSource → Result E (List KeyValue)
unfolding document
load (err e) s = err e
load (ok content) s = ok (document s.data_id s.format content)

-- What the environment gives: net.SplitHostPort, fmt.Sscanf with "%d", filepath.Join below
-- os.TempDir, the default group of the SDK, and its two constructors of clients.
pub record Environment (C D E : Type 0) : Type 0 where
  pub split_host_port : Text → Option (Text × Text)
  pub scan_uint : Text → Option ℕ
  pub below_temp : Text → Text → Text
  pub default_group : Text
  pub naming_client : ClientParam → Result E C
  pub config_client : ClientParam → Result E D

module _ {C D E : Type 0} (env : Environment C D E) where
  -- The parameter that both constructors give to the SDK
  unfoldable pub client_param : Options → Result (NacosError E) ClientParam
  client_param o = elim (server_configs env.split_host_port env.scan_uint o) [
    | err e ↦ err (address_error e)
    | ok scs ↦ ok (record { client = client_config env.below_temp o; servers = scs })
  ]

  -- NewNamingClient
  unfoldable pub new_naming_client : Options → Result (NacosError E) C
  unfolding client_param
  new_naming_client o = client_param o >>= λ param. elim (env.naming_client param) [
    | err e ↦ err (client_error e)
    | ok cli ↦ ok cli
  ]

  -- NewRegistry, and Registrar with it
  unfoldable pub new_registry : Options → Result (NacosError E) (Registry C)
  unfolding new_naming_client
  new_registry o = new_naming_client o >>= λ cli.
      ok (record { client = cli; group = group_name env.default_group o })

  unfoldable pub registrar : Options → Result (NacosError E) (Registry C)
  unfolding new_registry
  registrar o = new_registry o

  -- NewConfigSource: the source with its client
  unfoldable pub new_config_source : Options → Text → Result (NacosError E) (D × ConfigSource)
  unfolding client_param
  new_config_source o data_id = client_param o >>= λ param. elim (env.config_client param) [
    | err e ↦ err (client_error e)
    | ok cli ↦ ok (
      cli,
      record {
        data_id = data_id;
        group = group_name env.default_group o;
        format = format_of data_id;
      },
    )
  ]
