-- ===== src/Examples/Clients.antt =====
-- The client.
use clienthub.Prelude.{
  ◌≡◌, refl, true, Option, none, some, [], ◌∷◌, ok, String, lookup, nat_eq, string_eq, ==_iff,
  arith,
}
use clienthub.Proto.Message.{Message, new_message, msg_tunnel_ready, msg_data, msg_push_config}
use clienthub.Client.Tunnels.{handle_tunnel_ready, handle_incoming_tunnel, handle_data}
use clienthub.Client.Tunnels.Data.{handle_data_too_early}
use clienthub.Client.Request.{by_timer, by_channel, open_tunnel, Meanwhile}
use clienthub.Client.Request.Answer.{IsForgotten, open_tunnel_answered}
use clienthub.Client.Forwards.{Listen}
use clienthub.Client.Push.{handle_push_config}
use clienthub.Client.Push.Applied.{lookup-handle_push_config}
use clienthub.Client.Reconnect.{drain}
use clienthub.Client.Reconnect.Drained.{drain-wakes}
use clienthub.Examples.World.{lib, client, active_forward, ready, forward_info}

-- A network on which every write to the server succeeds, and a host where every address is free.
abbrev net : Message → Option String
net m = none

abbrev listen : Listen
listen addr = none

abbrev asleep : Meanwhile
asleep c = (c, by_timer)

open_tunnel_answered_example :
    IsForgotten lib net "bob" "web" "tcp"
      (7 ∷ [])
      client
      (open_tunnel lib net
        (λ c. ((handle_tunnel_ready lib (new_message msg_tunnel_ready 8 []) c).0, by_channel))
        "bob"
        "web"
        "tcp"
        client)
      (ok 1)
open_tunnel_answered_example =
    open_tunnel_answered lib net "bob" "web" "tcp" (7 ∷ []) client
      (new_message msg_tunnel_ready 8 []) ready refl refl refl refl refl refl

-- The bytes 1 come before tunnel 3 is bound, and the bytes 2 afterwards.
handle_data_too_early_example :
    let r = record ready { session_id = 3 } in
    let early = handle_data (λ conn b. true) (new_message msg_data 3 (1 ∷ [])) client in
    let bound = handle_incoming_tunnel net (λ addr. some 6) r early.0 in
    (early.1 ≡ none)
    × (bound.1 ≡ [])
    × ((handle_data (λ conn b. true) (new_message msg_data 3 (2 ∷ [])) bound.0).1
        ≡ some (6, 2 ∷ []))
handle_data_too_early_example =
    handle_data_too_early net (λ addr. some 6) (λ conn b. true) (record ready { session_id = 3 })
      (new_message msg_data 3 (1 ∷ [])) (new_message msg_data 3 (2 ∷ [])) 6 client refl refl refl
      (λ e. ground (arith, ==_iff {T = String} "127.0.0.1:8080" "")) refl refl

-- The list that is pushed asks for bob's service on the address; the forward stays carol's.
lookup-handle_push_config_example :
    lookup ":9000"
      (handle_push_config lib net listen (new_message msg_push_config 0 []) client).0.forwards
    ≡ some active_forward
lookup-handle_push_config_example =
    lookup-handle_push_config lib net listen (new_message msg_push_config 0 [])
      (record { expose = []; forward = forward_info ∷ [] }) client ":9000" refl (λ a. refl)

drain-wakes_example :
    ((drain client).pending ≡ [])
    × ((drain client).tunnels ≡ [])
    × (lookup 0 (drain client).channels ≡ some (some 0))
drain-wakes_example = drain-wakes client 7 0 refl
