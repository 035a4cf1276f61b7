-- ===== src/Server/Session.antt =====
-- pkg/server/server.go: handleClient and handleMessage. The handler of a connection runs in three
-- parts, between which other goroutines run: the authentication, one round of the loop for each
-- message, and the deferred clean-up.
pub mod Authentication
pub mod Replacement
pub mod Sections
pub mod Loop
use clienthub.Prelude.{
  ℕ, ◌≡◌, String, Bool, true, false, not, ◌||◌, Option, none, some, List, [], ◌∷◌, ◌++◌, ◌==◌,
  nat_eq, if◌then◌else◌,
}
use clienthub.Proto.Message.{
  Bytes, Message, new_message, msg_auth, msg_auth_ok, msg_auth_fail, msg_register, msg_open_tunnel,
  msg_data, msg_data_udp, msg_close, msg_heartbeat, msg_response,
}
use clienthub.Proto.Payload.{AuthPayload, decode_json}
use clienthub.Crypto.{Primitives, verify_auth_token}
use clienthub.Registry.{ClientSession, get_client, add_client}
use clienthub.Relay.{Write, forward_data, forward_close}
use clienthub.Server.State.{Server, Library, Net, send, unless_failed, drop_client}
use clienthub.Server.Pending.{handle_client_response}
use clienthub.Server.OpenTunnel.{handle_register, handle_open_tunnel}

abbrev pub close : ℕ → Server → Server
close conn s = record s { closed = conn ∷ s.closed }

-- Kick existing session with same name
kick_existing : String → Option ClientSession → Server → Server
kick_existing name none s = s
kick_existing name (some existing) s = drop_client name s

abbrev pub new_session : String → ℕ → ℕ → ClientSession
new_session name conn now = record { name = name; conn = conn; services = []; connected_at = now }

abbrev pub auth_ok : ℕ → Write
auth_ok conn = (conn, new_message msg_auth_ok 0 [])

abbrev pub auth_fail : ℕ → Write
auth_fail conn = (conn, new_message msg_auth_fail 0 [])

-- The state, the writes, and the name under which the loop then runs, if it does; a push of the
-- configuration to that name is then started.
abbrev pub Accepted : Type 0
Accepted = Server × List Write × Option String

greeted : String → ℕ → Server → Option String → Accepted
greeted name conn s none = (s, auth_ok conn ∷ [], some name)
greeted name conn s (some e) = (drop_client name s, [], none)

pub admit : Net → ℕ → ℕ → String → Server → Accepted
unfolding kick_existing greeted
admit net conn now name s =
    let s' = kick_existing name (get_client name s.registry) s in
    greeted name conn (record s' { registry = add_client (new_session name conn now) s'.registry })
      (net (auth_ok conn))

check_token : Primitives → Bytes → Library → Net → ℕ → ℕ → Server → Option AuthPayload → Accepted
unfolding admit
check_token p key lib net conn now s none = (close conn s, [], none)
check_token p key lib net conn now s (some auth) =
    if not (verify_auth_token p auth.client_name auth.token key)
    then (close conn s, send net (auth_fail conn), none)
    else admit net conn now auth.client_name s

-- The first message of a new connection, or none if it could not be read.
unfoldable pub accept_client :
    Primitives → Bytes → Library → Net → ℕ → ℕ → Option Message → Server → Accepted
unfolding check_token
accept_client p key lib net conn now none s = (close conn s, [], none)
accept_client p key lib net conn now (some msg) s =
    if not (msg.type == msg_auth)
    then (close conn s, [], none)
    else check_token p key lib net conn now s (decode_json lib.auth msg.payload)

send_option : Net → Option Write → List Write
send_option net none = []
send_option net (some w) = send net w

-- One message of the client on its connection.
unfoldable pub handle_message :
    Library → Net → ℕ → ℕ → String → Message → Server → Server × List Write
unfolding send_option
handle_message lib net now conn client_name msg s =
    if msg.type == msg_register
    then (handle_register lib client_name msg s, [])
    else if msg.type == msg_open_tunnel
    then handle_open_tunnel lib net now conn client_name msg s
    else if msg.type == msg_data || msg.type == msg_data_udp
    then (s, send_option net (forward_data client_name msg s.registry))
    else if msg.type == msg_close
    then (let (w, r) = forward_close client_name msg s.registry in
        (record s { registry = r }, send_option net w))
    else if msg.type == msg_heartbeat
    then (s, send net (conn, new_message msg_heartbeat 0 []))
    else if msg.type == msg_response
    then (handle_client_response msg s, [])
    else (s, [])

-- The deferred call when the loop is left.
unfoldable pub end_client : String → Server → Server
end_client client_name s = drop_client client_name s
