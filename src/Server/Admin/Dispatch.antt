-- ===== src/Server/Admin/Dispatch.antt =====
-- pkg/server/server.go: handleAdmin and handleAdminMessage.
pub mod Sections
pub mod Acceptance
use clienthub.Prelude.{
  ℕ, String, Bool, true, false, not, Option, none, some, List, [], ◌==◌, nat_eq, if◌then◌else◌,
}
use clienthub.Proto.Message.{
  Bytes, Message, new_message, msg_auth, msg_auth_ok, msg_auth_fail, msg_list_clients,
  msg_list_tunnels, msg_kick_client, msg_add_forward, msg_remove_forward, msg_list_forwards,
  msg_add_expose, msg_remove_expose, msg_list_expose,
}
use clienthub.Proto.Payload.{AuthPayload, decode_json}
use clienthub.Crypto.{Primitives, verify_auth_token}
use clienthub.Relay.{Write}
use clienthub.Store.{WriteOutcome, Return, returns}
use clienthub.Server.State.{Server, Library, Net, send}
use clienthub.Server.Pending.{Meanwhile}
use clienthub.Server.Admin.{
  Handled, handled, handle_kick, handle_admin_add_forward, handle_admin_remove_forward,
  handle_admin_add_expose, handle_admin_remove_expose,
}
use clienthub.Server.Admin.Probes.{Turn}
use clienthub.Server.Admin.Listing.{
  handle_list_tunnels, handle_admin_list_clients, handle_admin_list_expose,
  handle_admin_list_forwards,
}

-- What the rest of the world does while a command runs.
pub record Surroundings : Type 0 where
  pub net : Net
  pub disk : WriteOutcome
  pub meanwhile : String → Meanwhile
  pub probing : List Turn

-- The client that a command is for is named in its payload: the wait is for that client.
unfoldable pub handle_admin_message :
    Library → Surroundings → Meanwhile → ℕ → Message → Server → Return Handled
handle_admin_message lib w wait conn msg s =
    if msg.type == msg_list_clients
    then returns (handle_admin_list_clients lib w.net w.probing conn msg s)
    else if msg.type == msg_list_tunnels
    then returns (handle_list_tunnels lib w.net conn s)
    else if msg.type == msg_kick_client
    then returns (handle_kick lib w.net conn msg s)
    else if msg.type == msg_add_forward
    then returns (handle_admin_add_forward lib w.net w.disk wait conn msg s)
    else if msg.type == msg_remove_forward
    then handle_admin_remove_forward lib w.net w.disk wait conn msg s
    else if msg.type == msg_list_forwards
    then returns (handle_admin_list_forwards lib w.net w.meanwhile conn msg s)
    else if msg.type == msg_add_expose
    then returns (handle_admin_add_expose lib w.net w.disk conn msg s)
    else if msg.type == msg_remove_expose
    then handle_admin_remove_expose lib w.net w.disk conn msg s
    else if msg.type == msg_list_expose
    then handle_admin_list_expose lib w.net conn msg s
    else returns (handled s [])

admin_token : Primitives → Bytes → Net → ℕ → Option AuthPayload → List Write × Bool
admin_token p key net conn none = ([], false)
admin_token p key net conn (some auth) =
    if not (verify_auth_token p auth.client_name auth.token key)
    then (send net (conn, new_message msg_auth_fail 0 []), false)
    else (send net (conn, new_message msg_auth_ok 0 []), true)

-- The first message of an administrator's connection: the answer, and whether commands are then read.
unfoldable pub accept_admin :
    Primitives → Bytes → Library → Net → ℕ → Option Message → List Write × Bool
unfolding admin_token
accept_admin p key lib net conn none = ([], false)
accept_admin p key lib net conn (some msg) =
    if not (msg.type == msg_auth)
    then ([], false)
    else admin_token p key net conn (decode_json lib.auth msg.payload)
