-- ===== src/Examples/Hub.antt =====
-- The server's requests to clients, its pushes, and the administrator's commands.
use clienthub.Prelude.{◌≡◌, refl, true, false, none, [], ◌∷◌, ok, nat_eq, string_eq}
use clienthub.Proto.Message.{
  Message, new_message, msg_list_forwards, msg_response, msg_remove_expose,
}
use clienthub.Registry.{get_client, client_info}
use clienthub.Store.{returns, failed, get_client_rules}
use clienthub.Store.Lookup.{find_expose}
use clienthub.Server.Pending.{Meanwhile, forward_to_client_and_wait}
use clienthub.Server.Pending.Answer.{answers, HasOldChannels, forward_to_client_and_wait_answered}
use clienthub.Server.State.{Server}
use clienthub.Proto.Payload.{ClientInfo}
use clienthub.Server.Push.{push_config_to_client}
use clienthub.Server.Admin.{Handled, handle_admin_remove_expose}
use clienthub.Server.Admin.Effects.{unexpose_last_silent}
use clienthub.Examples.World.{lib, server, bob, good_net, web_rule}

-- Two responses: one to a request that nobody made, and the answer.
abbrev stray : Message
stray = new_message msg_response 9 []

abbrev response : Message
response = new_message msg_response 1 (1 ∷ [])

server-HasOldChannels : HasOldChannels server
server-HasOldChannels = record { old = λ id c e. cc e }

forward_to_client_and_wait_answered_example :
    (forward_to_client_and_wait lib good_net
      (λ t. (answers (stray ∷ response ∷ []) t, true))
      "bob"
      msg_list_forwards
      []
      server).0.0
    ≡ ok response
unfolding get_client
forward_to_client_and_wait_answered_example =
    forward_to_client_and_wait_answered lib good_net "bob" msg_list_forwards [] server bob
      (stray ∷ response ∷ []) server-HasOldChannels refl refl

abbrev bob_info : ClientInfo
bob_info = client_info lib.addr lib.rfc3339 bob

abbrev answering : Server → Server
answering t = answers (response ∷ []) t

abbrev idle : Meanwhile
idle s = (s, false)

unexpose_last_silent_example :
    (h : Handled) × (handle_admin_remove_expose lib good_net
        (failed none)
        9
        (new_message msg_remove_expose 0 [])
        server
      ≡ returns h)
    × (find_expose "bob" "web" h.server.store ≡ none)
    × (push_config_to_client lib good_net "bob" h.server ≡ [])
unfolding get_client_rules
unexpose_last_silent_example =
    unexpose_last_silent lib good_net (failed none) 9 (new_message msg_remove_expose 0 []) server
      (record { client_name = "bob"; service_name = "web" }) web_rule refl refl refl
