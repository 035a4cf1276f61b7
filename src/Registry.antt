-- ===== src/Registry.antt =====
-- pkg/server/registry.go: the connected clients and the live tunnels. Each method holds the lock from
-- its first access to its last, so it is one step on the state. A connection is a number, and stands
-- for the session's Conn, Writer and done channel, which are made and closed together.
pub mod Laws
pub mod Invariant
pub mod Listing
use clienthub.Prelude.{
  ℕ, ◌+◌, ◌%◌, ◌^◌, ◌≡◌, String, Bool, ◌||◌, Option, none, some, List, [], ◌∷◌, map, ◌==◌,
  string_eq, nat_eq, if◌then◌else◌, Map, lookup, insert, delete, delete_if,
}
use clienthub.Proto.Payload.{ServiceInfo, ClientInfo, TunnelInfo}

pub record ClientSession : Type 0 where
  pub name : String
  pub conn : ℕ
  pub services : List ServiceInfo
  pub connected_at : ℕ

pub record TunnelSession : Type 0 where
  pub id : ℕ
  pub source_client : String
  pub target_client : String
  pub target_service : String
  pub protocol : String
  pub created_at : ℕ

pub record Registry : Type 0 where
  pub clients : Map String ClientSession
  pub tunnels : Map ℕ TunnelSession
  pub next_sess : ℕ

abbrev pub new_registry : Registry
new_registry = record { clients = []; tunnels = []; next_sess = 0 }

unfoldable pub add_client : ClientSession → Registry → Registry
add_client session r = record r { clients = insert session.name session r.clients }

abbrev pub involves : String → TunnelSession → Bool
involves name t = t.source_client == name || t.target_client == name

abbrev conn_of : Option ClientSession → Option ℕ
conn_of none = none
conn_of (some sess) = some sess.conn

-- With the connection that is closed, if the client was there.
unfoldable pub remove_client : String → Registry → Registry × Option ℕ
remove_client name r = (
  record r { clients = delete name r.clients; tunnels = delete_if (involves name) r.tunnels },
  conn_of (lookup name r.clients),
)

unfoldable pub get_client : String → Registry → Option ClientSession
get_client name r = lookup name r.clients

-- The text of a connection's remote address and of a time are the standard library's.
abbrev pub client_info : (ℕ → String) → (ℕ → String) → ClientSession → ClientInfo
client_info addr rfc3339 c = record {
  name = c.name;
  addr = addr c.conn;
  services = c.services;
  connected_at = rfc3339 c.connected_at;
}

unfoldable pub list_clients : (ℕ → String) → (ℕ → String) → Registry → List ClientInfo
list_clients addr rfc3339 r = map (λ e. client_info addr rfc3339 e.1) r.clients

abbrev pub new_tunnel : ℕ → String → String → String → String → ℕ → TunnelSession
new_tunnel id source target service protocol now = record {
  id = id;
  source_client = source;
  target_client = target;
  target_service = service;
  protocol = protocol;
  created_at = now;
}

-- `now` is time.Now().
unfoldable pub allocate_session : String → String → String → String → ℕ → Registry → ℕ × Registry
allocate_session source target service protocol now r =
    let id = (r.next_sess + 1) % 2 ^ 32 in
    (
      id,
      record r {
        next_sess = id;
        tunnels = insert id (new_tunnel id source target service protocol now) r.tunnels;
      },
    )

unfoldable pub get_tunnel : ℕ → Registry → Option TunnelSession
get_tunnel id r = lookup id r.tunnels

unfoldable pub remove_tunnel : ℕ → Registry → Registry
remove_tunnel id r = record r { tunnels = delete id r.tunnels }

abbrev pub tunnel_info : TunnelSession → TunnelInfo
tunnel_info t = record {
  session_id = t.id;
  source_client = t.source_client;
  target_client = t.target_client;
  target_service = t.target_service;
  protocol = t.protocol;
}

unfoldable pub list_tunnels : Registry → List TunnelInfo
list_tunnels r = map (λ e. tunnel_info e.1) r.tunnels

set_services : List ServiceInfo → String → Option ClientSession → Registry → Registry
set_services services name none r = r
set_services services name (some c) r = record r {
  clients = insert name (record c { services = services }) r.clients;
}

unfoldable pub update_services : String → List ServiceInfo → Registry → Registry
unfolding set_services
update_services name services r = set_services services name (lookup name r.clients) r
