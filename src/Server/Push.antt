-- ===== src/Server/Push.antt =====
-- pkg/server/server.go: pushConfigToClient, which runs in a goroutine of its own.
pub mod Content
use clienthub.Prelude.{
  ℕ, ◌≡◌, String, Bool, ◌&&◌, Option, none, some, List, [], ◌∷◌, if◌then◌else◌, is_empty,
}
use clienthub.Proto.Message.{Message, new_message, msg_push_config}
use clienthub.Proto.Payload.{PushConfigPayload, encode_json}
use clienthub.Registry.{ClientSession, get_client}
use clienthub.Relay.{Write}
use clienthub.Store.{ClientRules, get_client_rules}
use clienthub.Server.State.{Server, Library, Net, send}

-- The message with the rules of a client.
abbrev pub config_write : Library → ℕ → ClientRules → Write
config_write lib conn rules = (
  conn,
  new_message msg_push_config 0
      (encode_json lib.push_config (record { expose = rules.expose; forward = rules.forward })),
)

push_to : Library → Net → ClientRules → Option ClientSession → List Write
push_to lib net rules none = []
push_to lib net rules (some client) = send net (config_write lib client.conn rules)

push_rules : Library → Net → String → Server → Option ClientRules → List Write
unfolding push_to
push_rules lib net client_name s none = []
push_rules lib net client_name s (some rules) =
    if is_empty rules.expose && is_empty rules.forward
    then []
    else push_to lib net rules (get_client client_name s.registry)

unfoldable pub push_config_to_client : Library → Net → String → Server → List Write
unfolding push_rules
push_config_to_client lib net client_name s =
    push_rules lib net client_name s (get_client_rules client_name s.store)
