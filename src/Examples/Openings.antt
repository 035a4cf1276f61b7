-- ===== src/Examples/Openings.antt =====
-- Alice opens a tunnel to the web service of bob.
use clienthub.Prelude.{◌≡◌, refl, String, Option, none, some, [], ◌∷◌, ok, ==_iff, string_eq, arith}
use clienthub.Proto.Message.{Message, new_message, msg_open_tunnel, msg_tunnel_ready}
use clienthub.Proto.Payload.{TunnelReadyPayload}
use clienthub.Library.{Library}
use clienthub.Registry.{get_tunnel, get_client}
use clienthub.Server.OpenTunnel.{handle_open_tunnel}
use clienthub.Client.State.{Client}
use clienthub.Client.Tunnels.{handle_tunnel_ready}
use clienthub.Client.Request.{open_tunnel, by_channel}
use clienthub.Client.Request.Answer.{IsForgotten}
use clienthub.Opening.{open_tunnel-handle_open_tunnel}
use clienthub.Examples.World.{
  lib, only, ready, request, server, client, config, good_net, bob, tunnel_1,
}

abbrev net : Message → Option String
net m = none

abbrev tunnel_2 : TunnelReadyPayload
tunnel_2 = record ready { session_id = 2 }

abbrev lib_2 : Library
lib_2 = record lib { tunnel_ready = only tunnel_2 }

-- The client that runs at bob.
abbrev at_bob : Client
at_bob = record client { cfg = record config { client_name = "bob" } }

abbrev asks : Message
asks = new_message msg_open_tunnel 8 (7 ∷ [])

open_tunnel-handle_open_tunnel_example :
    let r = handle_open_tunnel lib_2 good_net 0 1 "alice" asks server in
    (r.1
      ≡ (2, new_message msg_tunnel_ready 2 (7 ∷ []))
        ∷ (1, new_message msg_tunnel_ready 8 (7 ∷ []))
        ∷ [])
    × (get_tunnel 2 r.0.registry ≡ some (record tunnel_1 { id = 2 }))
    × IsForgotten lib_2 net "bob" "web" "tcp"
        (7 ∷ [])
        client
        (open_tunnel lib_2 net
          (λ c.
            ((handle_tunnel_ready lib_2 (new_message msg_tunnel_ready 8 (7 ∷ [])) c).0, by_channel))
          "bob"
          "web"
          "tcp"
          client)
        (ok 2)
    × (handle_tunnel_ready lib_2 (new_message msg_tunnel_ready 2 (7 ∷ [])) at_bob
        ≡ (at_bob, some tunnel_2))
unfolding get_client
open_tunnel-handle_open_tunnel_example =
    open_tunnel-handle_open_tunnel lib_2 good_net net 0 1 server client at_bob request (7 ∷ []) bob
      refl (λ e. ground (arith, ==_iff {T = String} "bob" "alice"))
      (record { asked = refl; connected = refl; offered = refl })
      (record {
        marshals = refl;
        announces = refl;
        asked = refl;
        told_target = refl;
        told_source = refl;
      })
