-- ===== src/Examples/World.antt =====
-- A small world that the examples run in: primitives that keep their laws, codecs that know one value
-- each, and a hub with the clients alice and bob, one tunnel and one stored rule.
use Prim.Native.String.{len}
use clienthub.Prelude.{
  ◌≡◌, ◌↔◌, refl, String, Bool, true, false, ◌&&◌, Option, none, some, [], ◌∷◌, ◌++◌, ◌==◌, ==_iff,
  nat_eq, arith, drop, replicate, pos,
}
use clienthub.Proto.Message.{Bytes, Message, new_message, msg_auth, msg_data}
use clienthub.Proto.Payload.{
  Codec, AuthPayload, ServiceInfo, OpenTunnelPayload, TunnelReadyPayload, ForwardInfo, ExposeRule,
}
use clienthub.Crypto.{Primitives, IsCorrect}
use clienthub.Library.{Library}
use clienthub.Config.{ClientConfig}
use clienthub.Registry.{ClientSession, TunnelSession, Registry, new_tunnel}
use clienthub.Relay.{Write}
use clienthub.Store.{Store, ClientRules}
use clienthub.Server.State.{Server}
use clienthub.Client.State.{Client, LocalTunnel, ActiveForward}

abbrev pub bytes_equal : Bytes → Bytes → Bool
bytes_equal [] [] = true
bytes_equal [] (b ∷ bs) = false
bytes_equal (a ∷ as') [] = false
bytes_equal (a ∷ as') (b ∷ bs) = let rest = bytes_equal as' bs in a == b && rest

bytes_equal_iff : (a b : Bytes) → (bytes_equal a b ≡ true) ↔ (a ≡ b)
bytes_equal_iff [] [] = ground arith
bytes_equal_iff [] (b ∷ bs) = ground arith
bytes_equal_iff (a ∷ as') [] = ground arith
bytes_equal_iff (a ∷ as') (b ∷ bs) = ground (arith, ==_iff a b, bytes_equal_iff as' bs)

abbrev pub primitives : Primitives
primitives = record {
  id_key = λ password salt. salt;
  seal = λ key nonce text. replicate 16 0 ++ text;
  unseal = λ key nonce sealed. some (drop 16 sealed);
  mac = λ key name. len name ∷ key;
  mac_equal = bytes_equal;
}

pub primitives-IsCorrect : IsCorrect primitives
primitives-IsCorrect = record {
  unseal-seal = λ key nonce text. refl;
  length-seal = λ key nonce text. omega arith;
  mac_equal_iff = bytes_equal_iff;
}

abbrev pub key : Bytes
key = 1 ∷ 2 ∷ 3 ∷ []

abbrev pub nonce : Bytes
nonce = replicate 24 9

-- A codec that knows one value.
abbrev pub only : {A : Type 0} → A → Codec A
only a = record { marshal = λ b. some (7 ∷ []); unmarshal = λ b. some a }

-- A codec whose calls fail.
abbrev pub never : {A : Type 0} → Codec A
never = record { marshal = λ b. none; unmarshal = λ b. none }

abbrev pub alice_auth : AuthPayload
alice_auth = record { client_name = "alice"; token = 5 ∷ key }

abbrev pub request : OpenTunnelPayload
request = record { target_client = "bob"; target_service = "web"; protocol = "tcp" }

abbrev pub ready : TunnelReadyPayload
ready = record { session_id = 1; source_client = "alice"; target_service = "web"; protocol = "tcp" }

abbrev pub web_rule : ExposeRule
web_rule = record { name = "web"; local_addr = "127.0.0.1:8080"; protocol = "tcp" }

abbrev pub forward_info : ForwardInfo
forward_info = record {
  client_name = "alice";
  listen_addr = ":9000";
  remote_client = "bob";
  remote_service = "web";
  protocol = "tcp";
}

abbrev pub lib : Library
lib = record {
  auth = only alice_auth;
  register = never;
  open_tunnel = only request;
  tunnel_ready = only ready;
  tunnel_fail = only (record { reason = "gone" });
  kick = only (record { client_name = "bob" });
  add_forward = only (record {
    client_name = "alice";
    listen_addr = ":9000";
    remote_client = "bob";
    remote_service = "web";
    protocol = "tcp";
  });
  remove_forward = never;
  response = never;
  push_config = only (record { expose = []; forward = forward_info ∷ [] });
  add_expose = only (record { client_name = "bob"; rule = web_rule });
  remove_expose = only (record { client_name = "bob"; service_name = "web" });
  list_clients = never;
  speed_result = never;
  client_infos = never;
  speed_infos = never;
  tunnel_infos = never;
  forward_infos = never;
  expose_entries = never;
  clients = never;
  clients_left = λ b. [];
  tunnels_left = λ b. [];
  unmarshal_error = λ b. "bad JSON";
  tabulate = λ lines. "";
  megabytes = λ n. "";
  forwards_left = λ b. [];
  save_error = λ e. "not saved";
  sprintf = λ format args. format;
  port_of = λ addr. pos 0;
  addr = λ conn. "somewhere";
  rfc3339 = λ t. "now";
}

abbrev pub web : ServiceInfo
web = record { name = "web"; protocol = "tcp"; port = pos 8080 }

abbrev pub alice : ClientSession
alice = record { name = "alice"; conn = 1; services = []; connected_at = 0 }

abbrev pub bob : ClientSession
bob = record { name = "bob"; conn = 2; services = web ∷ []; connected_at = 0 }

abbrev pub tunnel_1 : TunnelSession
tunnel_1 = new_tunnel 1 "alice" "bob" "web" "tcp" 0

abbrev pub registry : Registry
registry = record {
  clients = ("alice", alice) ∷ ("bob", bob) ∷ [];
  tunnels = (1, tunnel_1) ∷ [];
  next_sess = 1;
}

abbrev pub bob_rules : ClientRules
bob_rules = record { expose = web_rule ∷ []; forward = [] }

abbrev pub store : Store
store = record { clients = ("bob", some bob_rules) ∷ []; file = none }

abbrev pub server : Server
server = record {
  registry = registry;
  store = store;
  pending_reqs = [];
  channels = [];
  next_req_id = 0;
  next_channel = 0;
  closed = [];
}

-- A network on which every write succeeds, and one on which every write fails.
abbrev pub good_net : Write → Option String
good_net w = none

abbrev pub bad_net : Write → Option String
bad_net w = some "broken pipe"

abbrev pub first : Message
first = new_message msg_auth 0 (7 ∷ [])

abbrev pub bytes_message : Message
bytes_message = new_message msg_data 1 (10 ∷ 20 ∷ [])

abbrev pub local_tunnel : LocalTunnel
local_tunnel = record { session_id = 1; local_conn = 4; protocol = "tcp" }

abbrev pub active_forward : ActiveForward
active_forward = record {
  listen_addr = ":9000";
  remote_client = "carol";
  remote_service = "ssh";
  protocol = "tcp";
}

abbrev pub config : ClientConfig
config = record {
  server_addr = "hub:7900";
  client_name = "alice";
  secret = "s";
  log_level = "info";
  expose = record { name = "web"; local_addr = "127.0.0.1:8080"; protocol = "tcp" } ∷ [];
  forward = [];
}

-- Connected, with one tunnel, one pending request and one forward.
abbrev pub client : Client
client = record {
  cfg = config;
  connected = true;
  tunnels = (1, local_tunnel) ∷ [];
  pending = (7, 0) ∷ [];
  channels = (0, none) ∷ [];
  forwards = (":9000", active_forward) ∷ [];
  next_req_id = 7;
  next_channel = 1;
  closed = [];
  stopped = [];
}
