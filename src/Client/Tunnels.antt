-- ===== src/Client/Tunnels.antt =====
-- pkg/client/client.go: handleTunnelReady, handleTunnelFail, handleIncomingTunnel, handleData,
-- handleClose, closeTunnel, and the rounds of forwardLocalToServer.
pub mod Data
use clienthub.Prelude.{
  ℕ, ◌≡◌, String, Bool, true, false, Option, none, some, List, [], ◌∷◌, ◌++◌, Map, lookup, insert,
  delete, ◌==◌, nat_eq, string_eq, if◌then◌else◌,
}
use clienthub.Proto.Message.{Bytes, Message, new_message, msg_close, msg_data}
use clienthub.Proto.Payload.{TunnelReadyPayload, TunnelFailPayload, decode_json}
use clienthub.Config.{ExposeService}
use clienthub.Client.State.{Client, LocalTunnel, Library, Net, send_if, unless_failed}

-- select { case ch <- v: default: } on a channel of capacity 1.
abbrev pub offer : ℕ → Option (Option ℕ) → Option ℕ
offer v (some (some held)) = some held
offer v _ = some v

signal : ℕ → Option ℕ → Client → Client
signal v none c = c
signal v (some ch) c = record c { channels = insert ch (offer v (lookup ch c.channels)) c.channels }

-- The state, and the tunnel whose incoming side a goroutine that is started will serve.
ready_for : Message → Client → Option TunnelReadyPayload → Client × Option TunnelReadyPayload
ready_for msg c none = (c, none)
ready_for msg c (some ready) =
    if ready.source_client == c.cfg.client_name
    then (signal ready.session_id (lookup msg.session_id c.pending) c, none)
    else (c, some ready)

unfoldable pub handle_tunnel_ready : Library → Message → Client → Client × Option TunnelReadyPayload
unfolding ready_for signal
handle_tunnel_ready lib msg c = ready_for msg c (decode_json lib.tunnel_ready msg.payload)

failed_for : Message → Client → Option TunnelFailPayload → Client
failed_for msg c none = c
failed_for msg c (some fail) = signal 0 (lookup msg.session_id c.pending) c

unfoldable pub handle_tunnel_fail : Library → Message → Client → Client
unfolding failed_for signal
handle_tunnel_fail lib msg c = failed_for msg c (decode_json lib.tunnel_fail msg.payload)

-- The address of the first expose rule of that name.
abbrev pub local_addr_of : String → List ExposeService → String
local_addr_of service [] = ""
local_addr_of service (exp ∷ es) =
    if exp.name == service then exp.local_addr else local_addr_of service es

dialled : Net → TunnelReadyPayload → Client → Option ℕ → Client × List Message
dialled net ready c none = (c, send_if c.connected net (new_message msg_close ready.session_id []))
dialled net ready c (some local_conn) = (
  record c {
    tunnels =
        insert ready.session_id
          (record {
            session_id = ready.session_id;
            local_conn = local_conn;
            protocol = ready.protocol;
          })
          c.tunnels;
  },
  [],
)

-- `dial` is net.DialTimeout: the local connection, if there is one.
unfoldable pub handle_incoming_tunnel :
    Net → (String → Option ℕ) → TunnelReadyPayload → Client → Client × List Message
unfolding dialled
handle_incoming_tunnel net dial ready c =
    let addr = local_addr_of ready.target_service c.cfg.expose in
    if addr == ""
    then (c, send_if c.connected net (new_message msg_close ready.session_id []))
    else dialled net ready c (dial addr)

close_found : ℕ → Option LocalTunnel → Client → Client
close_found session_id none c = c
close_found session_id (some t) c = record c {
  tunnels = delete session_id c.tunnels;
  closed = t.local_conn ∷ c.closed;
}

unfoldable pub close_tunnel : ℕ → Client → Client
unfolding close_found
close_tunnel session_id c = close_found session_id (lookup session_id c.tunnels) c

unfoldable pub handle_close : Message → Client → Client
unfolding close_tunnel
handle_close msg c = close_tunnel msg.session_id c

-- The bytes that reach the local connection, if the write succeeds.
write_local :
    (ℕ → Bytes → Bool) → Message → Option LocalTunnel → Client → Client × Option (ℕ × Bytes)
write_local writes msg none c = (c, none)
write_local writes msg (some t) c =
    if writes t.local_conn msg.payload
    then (c, some (t.local_conn, msg.payload))
    else (close_tunnel msg.session_id c, none)

-- `writes` says whether localConn.Write returns no error.
unfoldable pub handle_data : (ℕ → Bytes → Bool) → Message → Client → Client × Option (ℕ × Bytes)
unfolding write_local
handle_data writes msg c = write_local writes msg (lookup msg.session_id c.tunnels) c

-- What localConn.Read returns: the bytes, and whether there was an error too.
pub record Chunk : Type 0 where
  pub bytes : Bytes
  pub failed : Bool

-- One round of the loop of forwardLocalToServer: the message, if there is one that is written, and
-- whether the loop goes on. Other goroutines run between the rounds.
forward_written : Chunk → ℕ → Option String → List Message × Bool
forward_written chunk session_id (some e) = ([], false)
forward_written chunk session_id none =
    (new_message msg_data session_id chunk.bytes ∷ [], if chunk.failed then false else true)

forward_bytes : Net → ℕ → Chunk → Bool → Bytes → List Message × Bool
unfolding forward_written
forward_bytes net session_id chunk connected [] = ([], if chunk.failed then false else true)
forward_bytes net session_id chunk false (b ∷ bs) = ([], false)
forward_bytes net session_id chunk true (b ∷ bs) =
    forward_written chunk session_id (net (new_message msg_data session_id chunk.bytes))

unfoldable pub forward_round : Net → ℕ → Chunk → Client → List Message × Bool
unfolding forward_bytes
forward_round net session_id chunk c = forward_bytes net session_id chunk c.connected chunk.bytes

-- What follows the loop.
unfoldable pub forward_end : Net → ℕ → Client → Client × List Message
unfolding close_tunnel
forward_end net session_id c =
    (close_tunnel session_id c, send_if c.connected net (new_message msg_close session_id []))
