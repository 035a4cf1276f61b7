-- ===== src/Examples/Administrators.antt =====
-- An administrator and the server.
use clienthub.Prelude.{◌≡◌, refl, true, false, none, some, [], ◌∷◌, err, arith}
use clienthub.Proto.Message.{Bytes, new_message, msg_list_tunnels, msg_add_expose, msg_kick_client}
use clienthub.Proto.Payload.{ResponsePayload}
use clienthub.Crypto.{compute_auth_token}
use clienthub.Library.{Library}
use clienthub.Registry.{get_client}
use clienthub.Store.{returns, written, add_expose}
use clienthub.Store.Lookup.{find_expose}
use clienthub.Server.Pending.{Meanwhile}
use clienthub.Server.Admin.{Handled, handled}
use clienthub.Server.Admin.Replies.{replied, unknown, saved_response, exposed}
use clienthub.Server.Admin.Dispatch.{Surroundings, handle_admin_message}
use clienthub.Manager.{Manager, Event.opened, Event.closed, Event.wrote, hello, send_command}
use clienthub.Manager.Commands
use clienthub.Manager.Commands.{kick_client, expose_payload}
use clienthub.Administration.{served, send_command_refused}
use clienthub.Administration.Outcome.{
  store_error, add_expose-handle_admin_message, kick_client_absent,
}
use clienthub.Examples.World.{
  primitives, primitives-IsCorrect, key, lib, server, web_rule, good_net, only,
}

abbrev nothing : Meanwhile
nothing t = (t, true)

abbrev quiet : Surroundings
quiet = record { net = good_net; disk = written; meanwhile = λ name. nothing; probing = [] }

-- The same library, but for the token of the manager and one response.
abbrev told : Bytes → ResponsePayload → Library
told token r = record lib {
  auth = only (record { client_name = "manager"; token = token });
  response = only r;
  kick = only (record { client_name = "carol" });
}

abbrev manager : Bytes → Manager
manager k = record { addr = "hub:7902"; key = k }

abbrev other_key : Bytes
other_key = 4 ∷ []

abbrev refusal : ResponsePayload
refusal = unknown lib "carol"

send_command_refused_example :
    send_command primitives
      (told (7 ∷ other_key) refusal)
      (served primitives primitives-IsCorrect key
        (told (7 ∷ other_key) refusal)
        quiet
        nothing
        3
        server
        (manager other_key))
      msg_list_tunnels
      []
      (manager other_key)
    ≡ (
      err "authentication failed",
      opened
          ∷ wrote (hello primitives (told (7 ∷ other_key) refusal) (manager other_key))
          ∷ closed
          ∷ [],
    )
unfolding compute_auth_token
send_command_refused_example =
    send_command_refused primitives primitives-IsCorrect key (told (7 ∷ other_key) refusal) quiet
      nothing 3 server (manager other_key) msg_list_tunnels [] (λ e. ground arith) refl refl

abbrev known : Library
known = told (7 ∷ key) refusal

kick_client_absent_example :
    (handle_admin_message known quiet nothing 3 (new_message msg_kick_client 0 (7 ∷ [])) server
      ≡ returns (handled server (replied known 3 refusal)))
    × ((kick_client primitives known
          (served primitives primitives-IsCorrect key known quiet nothing 3 server (manager key))
          (manager key)
          "carol").error
        ≡ none)
    × (refusal.success ≡ false)
unfolding compute_auth_token get_client
kick_client_absent_example =
    kick_client_absent primitives primitives-IsCorrect key known quiet nothing 3 server
      (manager key) "carol"
      (record {
        trusted = record { same_key = refl; unmarshals = refl; accepts = refl };
        up = λ msg. refl;
        decodes = refl;
      })
      refl refl

-- The rules cannot be marshalled in this library, so they are not saved.
abbrev answer : ResponsePayload
answer =
    saved_response lib (exposed lib (record { client_name = "bob"; rule = web_rule }))
      (add_expose lib.clients written "bob" web_rule server.store).1

add_expose-handle_admin_message_example :
    (h : Handled) × (handle_admin_message
        (told (7 ∷ key) answer)
        quiet
        nothing
        3
        (new_message msg_add_expose 0 (7 ∷ []))
        server
      ≡ returns h)
    × (find_expose "bob" "web" h.server.store ≡ some web_rule)
    × ((Commands.add_expose primitives
          (told (7 ∷ key) answer)
          (served primitives primitives-IsCorrect key
            (told (7 ∷ key) answer)
            quiet
            nothing
            3
            server
            (manager key))
          (manager key)
          "bob"
          "web"
          "127.0.0.1:8080"
          "tcp").error
        ≡ store_error lib (add_expose lib.clients written "bob" web_rule server.store).1)
unfolding compute_auth_token
add_expose-handle_admin_message_example =
    add_expose-handle_admin_message primitives primitives-IsCorrect key (told (7 ∷ key) answer)
      quiet nothing 3 server (manager key) "bob" "web" "127.0.0.1:8080" "tcp"
      (record {
        trusted = record { same_key = refl; unmarshals = refl; accepts = refl };
        up = λ msg. refl;
        decodes = refl;
      })
      refl
