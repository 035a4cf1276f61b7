-- ===== src/Examples/Tunnels.antt =====
-- The registry, the relay, and the requests for tunnels.
use clienthub.Prelude.{
  ◌≡◌, ◌≢◌, ◌↔◌, refl, false, none, some, List, [], ◌∷◌, String, arith, nat_eq, string_eq,
}
use clienthub.Proto.Message.{Message, new_message, msg_open_tunnel}
use clienthub.Registry.{
  Registry, ClientSession, TunnelSession, new_registry, get_client, get_tunnel, allocate_session,
  remove_client,
}
use clienthub.Registry.Laws.{remove_client_leaves}
use clienthub.Registry.Invariant.{Call, adds, removes, allocates, run, allocate_session_fresh}
use clienthub.Relay.{forward_data, forward_close}
use clienthub.Relay.Routes.{Faces, forward_data_sound, forward_close_by_stranger}
use clienthub.Server.State.{send}
use clienthub.Server.OpenTunnel.{handle_open_tunnel, has_service, tunnel_ready, tunnel_fail}
use clienthub.Server.OpenTunnel.Outcome.{
  IsServed, handle_open_tunnel_opens, handle_open_tunnel_unreachable, handle_open_tunnel_refuses,
}
use clienthub.Examples.World.{
  lib, server, registry, alice, bob, tunnel_1, bytes_message, good_net, bad_net, request,
}

forward_data_sound_example :
    (t : TunnelSession) × (other : ClientSession) × (other_name : String) × (get_tunnel 1 registry
      ≡ some t)
    × Faces "alice" t other_name
    × (get_client other_name registry ≡ some other)
    × (other.conn ≡ 2)
    × (bytes_message ≡ bytes_message)
unfolding forward_data get_tunnel get_client
forward_data_sound_example = forward_data_sound "alice" bytes_message bytes_message 2 registry refl

forward_close_by_stranger_example :
    (forward_data "mallory" bytes_message registry ≡ none)
    × (get_tunnel 1 (forward_close "mallory" bytes_message registry).1 ≡ none)
    × ((forward_close "mallory" bytes_message registry).0 ≡ some (1, bytes_message))
unfolding get_client get_tunnel
forward_close_by_stranger_example =
    forward_close_by_stranger "mallory" bytes_message registry tunnel_1 refl refl

-- Two clients come, a tunnel is opened between them, and one leaves.
abbrev calls : List Call
calls = adds alice ∷ adds bob ∷ allocates "alice" "bob" "web" "tcp" 0 ∷ removes "bob" ∷ []

allocate_session_fresh_example :
    ((allocate_session "alice" "bob" "web" "tcp" 0 (run new_registry calls)).0 ≡ 2)
    × (get_tunnel 2 (run new_registry calls) ≡ none)
allocate_session_fresh_example =
    allocate_session_fresh calls "alice" "bob" "web" "tcp" 0 (omega arith)

remove_client_leaves_example :
    ((get_tunnel 1 (remove_client "bob" registry).0 ≡ some tunnel_1) ↔ (
      (get_tunnel 1 registry ≡ some tunnel_1)
      × (tunnel_1.source_client ≢ "bob")
      × (tunnel_1.target_client ≢ "bob")))
    × ((get_client "alice" (remove_client "bob" registry).0 ≡ some alice)
        ↔ ((get_client "alice" registry ≡ some alice) × (alice.name ≢ "bob")))
remove_client_leaves_example =
    remove_client_leaves "bob" "alice" 1 tunnel_1 alice registry (refl, tt)

-- Alice asks for the service of bob.
abbrev asking : Message
asking = new_message msg_open_tunnel 3 (7 ∷ [])

request-IsServed : IsServed lib good_net 0 1 "alice" asking server request bob
unfolding get_client
request-IsServed = record { asked = refl; connected = refl; offered = refl }

request-IsServed_badly : IsServed lib bad_net 0 1 "alice" asking server request bob
unfolding get_client
request-IsServed_badly = record { asked = refl; connected = refl; offered = refl }

handle_open_tunnel_opens_example :
    let r = handle_open_tunnel lib good_net 0 1 "alice" asking server in
    (get_tunnel 2 r.0.registry ≡ some (record tunnel_1 { id = 2 }))
    × (r.1 ≡ tunnel_ready lib 2 2 2 "alice" request ∷ tunnel_ready lib 1 3 2 "alice" request ∷ [])
handle_open_tunnel_opens_example =
    handle_open_tunnel_opens lib good_net 0 1 "alice" asking server request bob request-IsServed
      refl

handle_open_tunnel_unreachable_example :
    let r = handle_open_tunnel lib bad_net 0 1 "alice" asking server in
    (get_tunnel 2 r.0.registry ≡ none) × (r.1 ≡ [])
handle_open_tunnel_unreachable_example =
    handle_open_tunnel_unreachable lib bad_net 0 1 "alice" asking server request bob "broken pipe" 2
      request-IsServed_badly refl

-- Bob, when it offers nothing.
abbrev without_services : Registry
without_services = record registry { clients = ("bob", record bob { services = [] }) ∷ [] }

no_service :
    (target : ClientSession)
    → get_client "bob" without_services ≡ some target
    → has_service "web" target.services ≡ false
unfolding get_client
no_service target e = ground arith

handle_open_tunnel_refuses_example :
    let s = record server { registry = without_services } in
    let r = handle_open_tunnel lib good_net 0 1 "alice" asking s in
    (r.0 ≡ s) × ((reason : String) × (r.1 ≡ send good_net (tunnel_fail lib 1 3 reason)))
handle_open_tunnel_refuses_example =
    handle_open_tunnel_refuses lib good_net 0 1 "alice" asking
      (record server { registry = without_services }) request refl no_service
