-- ===== src/Server/State.antt =====
-- pkg/server/server.go: the Server struct, and a write to a connection. A handler's writes are listed in their order: those that returned no error.
use clienthub.Prelude.{ℕ, ◌≡◌, refl, String, Bool, Option, none, some, List, [], ◌∷◌, Map}
pub use clienthub.Library.{Library, Arg, text, number}
use clienthub.Proto.Message.{Bytes, Message, new_message, msg_response}
use clienthub.Proto.Payload.{encode_json}
use clienthub.Registry.{Registry, ClientSession, new_registry, get_client, remove_client}
use clienthub.Relay.{Write}
use clienthub.Store.{Store}

-- What ConnWriter.WriteMessage returns for a write: no error, or the text of one. It is fixed while one
-- message is handled; over a whole connection it may change.
abbrev pub Net : Type 0
Net = Write → Option String

-- `pending_reqs` maps a request to its channel; a channel holds at most one message. `closed` lists
-- the connections that RemoveClient has closed.
pub record Server : Type 0 where
  pub registry : Registry
  pub store : Store
  pub pending_reqs : Map ℕ ℕ
  pub channels : Map ℕ (Option Message)
  pub next_req_id : ℕ
  pub next_channel : ℕ
  pub closed : List ℕ

abbrev pub new_server : Store → Server
new_server store = record {
  registry = new_registry;
  store = store;
  pending_reqs = [];
  channels = [];
  next_req_id = 0;
  next_channel = 0;
  closed = [];
}

-- The write, if it returned no error.
abbrev pub unless_failed : Option String → Write → List Write
unless_failed none w = w ∷ []
unless_failed (some e) w = []

abbrev pub send : Net → Write → List Write
send net w = unless_failed (net w) w

abbrev pub close_conn : Option ℕ → List ℕ → List ℕ
close_conn none closed = closed
close_conn (some conn) closed = conn ∷ closed

-- s.registry.RemoveClient(name)
unfoldable pub drop_client : String → Server → Server
drop_client name s =
    let (r, conn) = remove_client name s.registry in
    record s { registry = r; closed = close_conn conn s.closed }

pub registry-drop_client :
    (name : String) (s : Server) → (drop_client name s).registry ≡ (remove_client name s.registry).0
unfolding drop_client
registry-drop_client name s = refl

pub closed-drop_client :
    (name : String) (s : Server) (client : ClientSession)
    → get_client name s.registry ≡ some client
    → (drop_client name s).closed ≡ client.conn ∷ s.closed
unfolding drop_client get_client remove_client
closed-drop_client name s client e = rw e refl

-- adminReply
abbrev pub admin_reply : Library → Net → ℕ → Bool → String → Bytes → List Write
admin_reply lib net conn success message raw = send net (
  conn,
  new_message msg_response 0
      (encode_json lib.response (record { success = success; message = message; raw = raw })),
)
