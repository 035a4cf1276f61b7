-- ===== src/Client/Session.antt =====
-- pkg/client/client.go: authenticate, the start of runOnce, and the dispatch of readLoop. What the
-- server answers to the first message is an argument.
use clienthub.Prelude.{
  ℕ, String, Bool, ◌||◌, not, Option, none, some, List, [], ◌∷◌, ◌==◌, nat_eq, if◌then◌else◌,
  is_empty,
}
use clienthub.Proto.Message.{
  Bytes, Message, MsgType, new_message, msg_auth, msg_auth_ok, msg_auth_fail, msg_tunnel_ready,
  msg_tunnel_fail, msg_data, msg_data_udp, msg_close, msg_add_forward, msg_remove_forward,
  msg_list_forwards, msg_push_config, msg_speed_test,
}
use clienthub.Proto.Payload.{AuthPayload, TunnelReadyPayload}
use clienthub.Crypto.{Primitives, compute_auth_token}
use clienthub.Config.{ForwardRule}
use clienthub.Client.State.{Client, Library, Net}
use clienthub.Client.Tunnels.{handle_tunnel_ready, handle_tunnel_fail, handle_data, handle_close}
use clienthub.Client.Forwards.{
  Listen, add_forward, handle_add_forward, handle_remove_forward, handle_list_forwards,
  handle_speed_test,
}
use clienthub.Client.Push.{handle_push_config}

pub data AuthError : Type 0 where
  unmarshalled : AuthError
  unsent : String → AuthError
  unread : AuthError
  -- proto.ErrAuthFailed
  auth_failed : AuthError
  unexpected_response : MsgType → AuthError

abbrev pub credentials : Primitives → Bytes → Client → AuthPayload
credentials p key c = record {
  client_name = c.cfg.client_name;
  token = compute_auth_token p c.cfg.client_name key;
}

-- The answer, or none if it could not be read.
checked : Option Message → Option AuthError
checked none = some unread
checked (some resp) =
    if resp.type == msg_auth_fail
    then some auth_failed
    else if not (resp.type == msg_auth_ok)
    then some (unexpected_response resp.type)
    else none

sent_auth : Option String → Message → (Message → Option Message) → List Message × Option AuthError
unfolding checked
sent_auth (some e) msg answer = ([], some (unsent e))
sent_auth none msg answer = (msg ∷ [], checked (answer msg))

send_auth : Net → (Message → Option Message) → Option Bytes → List Message × Option AuthError
unfolding sent_auth
send_auth net answer none = ([], some unmarshalled)
send_auth net answer (some payload) =
    let msg = new_message msg_auth 0 payload in sent_auth (net msg) msg answer

-- What is written, and the error if there is one.
unfoldable pub authenticate :
    Primitives
    → Bytes
    → Library
    → Net
    → (Message → Option Message)
    → Client
    → List Message × Option AuthError
unfolding send_auth
authenticate p key lib net answer c = send_auth net answer (lib.auth.marshal (credentials p key c))

-- for _, fwd := range c.cfg.Forward { c.addForward(…) }: an error is logged.
add_static : Library → Listen → List ForwardRule → Client → Client
add_static lib listen [] c = c
add_static lib listen (f ∷ fs) c =
    add_static lib listen fs
      (add_forward lib listen f.listen_addr f.remote_client f.remote_service f.protocol c).0

-- The listeners of the configuration are opened when there are none.
unfoldable pub start_forwards : Library → Listen → Client → Client
unfolding add_static
start_forwards lib listen c =
    if is_empty c.forwards then add_static lib listen c.cfg.forward c else c

-- What one message from the server leads to: the state, the messages to the server, the tunnel that a
-- new goroutine serves, and the bytes for a local connection.
pub record Effects : Type 0 where
  pub client : Client
  pub sent : List Message
  pub incoming : Option TunnelReadyPayload
  pub delivered : Option (ℕ × Bytes)

abbrev pub only_state : Client → Effects
only_state c = record { client = c; sent = []; incoming = none; delivered = none }

abbrev pub with_sent : Client × List Message → Effects
with_sent (c, ws) = record { client = c; sent = ws; incoming = none; delivered = none }

-- One round of readLoop.
unfoldable pub handle_message :
    Library → Net → Listen → (ℕ → Bytes → Bool) → Message → Client → Effects
handle_message lib net listen writes msg c =
    if msg.type == msg_tunnel_ready
    then (let (c', incoming) = handle_tunnel_ready lib msg c in
        record { client = c'; sent = []; incoming = incoming; delivered = none })
    else if msg.type == msg_tunnel_fail
    then only_state (handle_tunnel_fail lib msg c)
    else if msg.type == msg_data || msg.type == msg_data_udp
    then (let (c', delivered) = handle_data writes msg c in
        record { client = c'; sent = []; incoming = none; delivered = delivered })
    else if msg.type == msg_close
    then only_state (handle_close msg c)
    else if msg.type == msg_add_forward
    then with_sent (handle_add_forward lib net listen msg c)
    else if msg.type == msg_remove_forward
    then with_sent (handle_remove_forward lib net msg c)
    else if msg.type == msg_list_forwards
    then with_sent (c, handle_list_forwards lib net msg c)
    else if msg.type == msg_push_config
    then with_sent (handle_push_config lib net listen msg c)
    else if msg.type == msg_speed_test
    then with_sent (c, handle_speed_test lib net msg c)
    else only_state c
