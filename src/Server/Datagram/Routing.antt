-- ===== src/Server/Datagram/Routing.antt =====
-- Where a datagram goes.
use clienthub.Prelude.{◌<◌, ◌^◌, ◌≡◌, refl, Option, none, some, length, ok, arith, nat_eq}
use clienthub.Proto.Message.{Bytes, Message, msg_data_udp, encode}
use clienthub.Proto.Message.RoundTrip.{IsSendable, read_message_from_bytes-encode}
use clienthub.Crypto.{Primitives, IsCorrect, nonce_size, encrypt}
use clienthub.Crypto.Laws.{decrypt-encrypt}
use clienthub.Registry.{TunnelSession, ClientSession, get_client, get_tunnel}
use clienthub.Relay.{write_to}
use clienthub.Server.State.{Server}
use clienthub.Server.Datagram.{handle_udp_packet, parse_packet, route, through, target_or_source}

-- The client that a datagram of a tunnel goes to: the target, or the source if there is no target.
abbrev pub reached : TunnelSession → Server → Option ClientSession
reached t s = elim (get_client t.target_client s.registry) [
  | some target ↦ some target
  | none ↦ get_client t.source_client s.registry
]

abbrev pub reached_by : Server → Option TunnelSession → Option ClientSession
reached_by s none = none
reached_by s (some t) = reached t s

-- A datagram that carries a UDP message under the server's key, with a nonce of 24 bytes, this
-- program's version and less than 2^32 bytes of payload, is handed on unchanged. It goes to the
-- target of its tunnel whoever sent it, to the source only if the target is not connected, and
-- nowhere if there is no such tunnel or neither is connected.
pub handle_udp_packet-encrypt :
    (p : Primitives) (c : IsCorrect p) (key nonce : Bytes) (msg : Message) (s : Server)
    {packet : Bytes}
    → IsSendable msg
    → msg.type ≡ msg_data_udp
    → length msg.payload < 2 ^ 32
    → length nonce ≡ nonce_size
    → encrypt p key (some nonce) (encode msg) ≡ ok packet
    → handle_udp_packet p key packet s
      ≡ write_to msg (reached_by s (get_tunnel msg.session_id s.registry))
unfolding handle_udp_packet
handle_udp_packet-encrypt p c key nonce msg s {packet} h t l n e =
    rw
      (
        decrypt-encrypt p c key nonce (encode msg) {sealed = packet} n e,
        parse_packet,
        read_message_from_bytes-encode msg h l,
      )
      (unfold route in ground (arith, through_reached (get_tunnel msg.session_id s.registry)))
  where
    through_reached : (o : Option TunnelSession) → through msg s o ≡ write_to msg (reached_by s o)
    through_reached none = unfold through in refl
    through_reached (some u) = unfold through target_or_source in ground arith
