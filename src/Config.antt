-- ===== src/Config.antt =====
-- config/config.go: the three configurations, their defaults, and what is refused. os.ReadFile and
-- yaml.Unmarshal, which fills a value that holds the defaults, are arguments.
pub mod Checks
use clienthub.Prelude.{
  ◌≡◌, String, Bool, Option, none, some, List, [], ◌∷◌, map, ◌==◌, string_eq, if◌then◌else◌, Result,
  ok, err,
}
use clienthub.Proto.Message.{Bytes}

pub record ServerConfig : Type 0 where
  pub listen_addr : String
  pub udp_addr : String
  pub admin_addr : String
  pub secret : String
  pub log_level : String
  pub store_path : String

pub record ExposeService : Type 0 where
  pub name : String
  pub local_addr : String
  pub protocol : String

pub record ForwardRule : Type 0 where
  pub remote_client : String
  pub remote_service : String
  pub listen_addr : String
  pub protocol : String

pub record ClientConfig : Type 0 where
  pub server_addr : String
  pub client_name : String
  pub secret : String
  pub log_level : String
  pub expose : List ExposeService
  pub forward : List ForwardRule

pub record ManagerConfig : Type 0 where
  pub admin_addr : String
  pub secret : String

pub data Error : Type 0 where
  unreadable not_yaml : Error
  required : String → Error

-- loadYAML: the file, if it can be read, over the defaults.
abbrev pub load_yaml : {A : Type 0} → (Bytes → A → Option A) → Option Bytes → A → Result Error A
load_yaml unmarshal none defaults = err unreadable
load_yaml unmarshal (some b) defaults = elim (unmarshal b defaults) [
  | none ↦ err not_yaml
  | some cfg ↦ ok cfg
]

check_server : Result Error ServerConfig → Result Error ServerConfig
check_server (err e) = err e
check_server (ok cfg) = if cfg.secret == "" then err (required "secret") else ok cfg

abbrev pub server_defaults : ServerConfig
server_defaults = record {
  listen_addr = ":7900";
  udp_addr = ":7901";
  admin_addr = ":7902";
  secret = "";
  log_level = "info";
  store_path = "clienthub-store.json";
}

unfoldable pub load_server_config :
    (Bytes → ServerConfig → Option ServerConfig) → Option Bytes → Result Error ServerConfig
unfolding check_server
load_server_config unmarshal file = check_server (load_yaml unmarshal file server_defaults)

-- if … .Protocol == "" { … .Protocol = "tcp" }
abbrev pub or_tcp : String → String
or_tcp protocol = if protocol == "" then "tcp" else protocol

abbrev pub expose_or_tcp : ExposeService → ExposeService
expose_or_tcp e = record e { protocol = or_tcp e.protocol }

abbrev pub forward_or_tcp : ForwardRule → ForwardRule
forward_or_tcp f = record f { protocol = or_tcp f.protocol }

check_client : Result Error ClientConfig → Result Error ClientConfig
check_client (err e) = err e
check_client (ok cfg) =
    if cfg.server_addr == ""
    then err (required "server_addr")
    else if cfg.client_name == ""
    then err (required "client_name")
    else if cfg.secret == ""
    then err (required "secret")
    else ok (record cfg {
      expose = map expose_or_tcp cfg.expose;
      forward = map forward_or_tcp cfg.forward;
    })

abbrev pub client_defaults : ClientConfig
client_defaults = record {
  server_addr = "";
  client_name = "";
  secret = "";
  log_level = "info";
  expose = [];
  forward = [];
}

unfoldable pub load_client_config :
    (Bytes → ClientConfig → Option ClientConfig) → Option Bytes → Result Error ClientConfig
unfolding check_client
load_client_config unmarshal file = check_client (load_yaml unmarshal file client_defaults)

check_manager : Result Error ManagerConfig → Result Error ManagerConfig
check_manager (err e) = err e
check_manager (ok cfg) = if cfg.secret == "" then err (required "secret") else ok cfg

abbrev pub manager_defaults : ManagerConfig
manager_defaults = record { admin_addr = "127.0.0.1:7902"; secret = "" }

unfoldable pub load_manager_config :
    (Bytes → ManagerConfig → Option ManagerConfig) → Option Bytes → Result Error ManagerConfig
unfolding check_manager
load_manager_config unmarshal file = check_manager (load_yaml unmarshal file manager_defaults)
