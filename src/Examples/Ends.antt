-- ===== src/Examples/Ends.antt =====
-- A client and a server that meet.
use clienthub.Prelude.{◌≡◌, refl, Option, none, some, [], ◌∷◌, arith, String, ◌++◌}
use clienthub.Proto.Message.{Bytes, Message, new_message, msg_data_udp, encode}
use clienthub.Crypto.{compute_auth_token, encrypt}
use clienthub.Registry.{get_client, get_tunnel}
use clienthub.Server.Session.{accept_client, new_session, close}
use clienthub.Server.Datagram.{handle_udp_packet}
use clienthub.Server.Datagram.Routing.{handle_udp_packet-encrypt}
use clienthub.Client.Session.{authenticate, auth_failed}
use clienthub.Handshake.{
  reads, hello, authenticate-accept_client, authenticate-accept_client_refused,
}
use clienthub.Examples.World.{
  primitives, primitives-IsCorrect, key, nonce, lib, good_net, server, client, only,
}
use clienthub.Library.{Library}

abbrev net : Message → Option String
net m = none

authenticate-accept_client_example :
    (authenticate primitives key lib net
        (reads primitives primitives-IsCorrect key key lib good_net net 8 0 server client)
        client
      ≡ (hello (7 ∷ []) ∷ [], none))
    × ((accept_client primitives key lib good_net 8 0 (some (hello (7 ∷ []))) server).2
        ≡ some "alice")
    × (get_client "alice"
          (accept_client primitives key lib good_net 8 0 (some (hello (7 ∷ []))) server).0.registry
        ≡ some (new_session "alice" 8 0))
unfolding compute_auth_token
authenticate-accept_client_example =
    authenticate-accept_client primitives primitives-IsCorrect key key lib good_net net 8 0 server
      client (7 ∷ []) refl
      (record { marshals = refl; unmarshals = refl; written = refl; replied = refl })

-- Alice with another key.
abbrev other_key : Bytes
other_key = 4 ∷ []

abbrev other_lib : Library
other_lib = record lib { auth = only (record { client_name = "alice"; token = 5 ∷ other_key }) }

authenticate-accept_client_refused_example :
    (authenticate primitives other_key other_lib net
        (reads primitives primitives-IsCorrect key other_key other_lib good_net net 8 0 server
          client)
        client
      ≡ (hello (7 ∷ []) ∷ [], some auth_failed))
    × ((accept_client primitives key other_lib good_net 8 0 (some (hello (7 ∷ []))) server).2
        ≡ none)
    × ((accept_client primitives key other_lib good_net 8 0 (some (hello (7 ∷ []))) server).0
        ≡ close 8 server)
unfolding compute_auth_token
authenticate-accept_client_refused_example =
    authenticate-accept_client_refused primitives primitives-IsCorrect key other_key other_lib
      good_net net 8 0 server client (7 ∷ []) (λ e. ground arith)
      (record { marshals = refl; unmarshals = refl; written = refl; replied = refl })

-- Alice sends a datagram on tunnel 1.
abbrev datagram : Message
datagram = new_message msg_data_udp 1 (8 ∷ [])

handle_udp_packet-encrypt_example :
    handle_udp_packet primitives key (nonce ++ primitives.seal key nonce (encode datagram)) server
    ≡ some (2, datagram)
unfolding encrypt get_client get_tunnel
handle_udp_packet-encrypt_example =
    handle_udp_packet-encrypt primitives primitives-IsCorrect key nonce datagram server
      {packet = nonce ++ primitives.seal key nonce (encode datagram)}
      (record { current = refl; session_fits = omega arith }) refl (omega arith) refl refl
