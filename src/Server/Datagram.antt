-- ===== src/Server/Datagram.antt =====
-- pkg/server/server.go: handleUDPPacket. A datagram is relayed over the control channel.
pub mod Routing
use clienthub.Prelude.{
  ℕ, ◌≡◌, String, Bool, not, Option, none, some, List, [], ◌∷◌, ◌==◌, nat_eq, if◌then◌else◌, Result,
  ok, err,
}
use clienthub.Proto.Message
use clienthub.Proto.Message.{Bytes, Message, msg_data_udp, read_message_from_bytes}
use clienthub.Crypto
use clienthub.Crypto.{Primitives, decrypt}
use clienthub.Registry.{ClientSession, TunnelSession, get_client, get_tunnel}
use clienthub.Relay.{Write, write_to}
use clienthub.Server.State.{Server, Net, send}

-- The target, or the source if the target is not connected.
target_or_source : TunnelSession → Server → Option ClientSession → Option ClientSession
target_or_source t s (some target) = some target
target_or_source t s none = get_client t.source_client s.registry

through : Message → Server → Option TunnelSession → Option Write
unfolding target_or_source
through msg s none = none
through msg s (some t) = write_to msg (target_or_source t s (get_client t.target_client s.registry))

route : Server → Result Message.Error Message → Option Write
unfolding through
route s (err e) = none
route s (ok msg) =
    if not (msg.type == msg_data_udp)
    then none
    else through msg s (get_tunnel msg.session_id s.registry)

parse_packet : Server → Result Crypto.Error Bytes → Option Write
unfolding route
parse_packet s (err e) = none
parse_packet s (ok decrypted) = route s (read_message_from_bytes decrypted)

-- The write that the datagram leads to, if any.
unfoldable pub handle_udp_packet : Primitives → Bytes → Bytes → Server → Option Write
unfolding parse_packet
handle_udp_packet p key data' s = parse_packet s (decrypt p key data')
