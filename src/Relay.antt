-- ===== src/Relay.antt =====
-- pkg/server/relay.go: data and closings go to the other end of their tunnel. A write to a client is
-- the number of its connection with the message; a failed write is logged and nothing else.
pub mod Routes
use clienthub.Prelude.{ℕ, ◌≡◌, String, Option, none, some, ◌==◌, string_eq, if◌then◌else◌}
use clienthub.Proto.Message.{Message}
use clienthub.Registry.{
  Registry, ClientSession, TunnelSession, get_client, get_tunnel, remove_tunnel,
}

abbrev pub Write : Type 0
Write = ℕ × Message

-- The write to a client, if it is connected.
abbrev pub write_to : Message → Option ClientSession → Option Write
write_to msg none = none
write_to msg (some target) = some (target.conn, msg)

relay_data : String → Message → Registry → Option TunnelSession → Option Write
relay_data sender_name msg r none = none
relay_data sender_name msg r (some t) =
    if sender_name == t.source_client
    then write_to msg (get_client t.target_client r)
    else if sender_name == t.target_client
    then write_to msg (get_client t.source_client r)
    else none

unfoldable pub forward_data : String → Message → Registry → Option Write
unfolding relay_data
forward_data sender_name msg r = relay_data sender_name msg r (get_tunnel msg.session_id r)

relay_close : String → Message → Registry → Option TunnelSession → Option Write × Registry
relay_close sender_name msg r none = (none, r)
relay_close sender_name msg r (some t) =
    let target_name = if sender_name == t.source_client then t.target_client else t.source_client in
    (write_to msg (get_client target_name r), remove_tunnel msg.session_id r)

unfoldable pub forward_close : String → Message → Registry → Option Write × Registry
unfolding relay_close
forward_close sender_name msg r = relay_close sender_name msg r (get_tunnel msg.session_id r)
