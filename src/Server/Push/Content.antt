-- ===== src/Server/Push/Content.antt =====
-- What is pushed to a client, and when nothing is.
use clienthub.Prelude.{◌≡◌, refl, String, false, ◌&&◌, Option, none, some, [], is_empty, string_eq}
use clienthub.Registry.{ClientSession, get_client}
use clienthub.Store.{ClientRules, get_client_rules, or_created}
use clienthub.Server.State.{Server, Library, Net, send}
use clienthub.Server.Push.{config_write, push_to, push_rules, push_config_to_client}

-- A connected client that has rules is sent all its stored rules, in one message.
pub push_config_to_client_sends :
    (lib : Library) (net : Net) (name : String) (s : Server) (client : ClientSession)
    (rules : ClientRules)
    → get_client_rules name s.store ≡ some rules
    → (is_empty rules.expose && is_empty rules.forward) ≡ false
    → get_client name s.registry ≡ some client
    → push_config_to_client lib net name s ≡ send net (config_write lib client.conn rules)
unfolding push_config_to_client
push_config_to_client_sends lib net name s client rules e f g =
    rw (e, push_rules) (rw f (rw (g, push_to) refl))

-- Nothing is sent to a client that has no rules, also if it had some before: a client whose last rule
-- was removed keeps on offering the service.
pub push_config_to_client_silent :
    (lib : Library) (net : Net) (name : String) (s : Server)
    → (or_created (get_client_rules name s.store)).expose ≡ []
    → (or_created (get_client_rules name s.store)).forward ≡ []
    → push_config_to_client lib net name s ≡ []
unfolding push_config_to_client
push_config_to_client_silent lib net name s = go (get_client_rules name s.store)
  where
    go :
        (o : Option ClientRules)
        → (or_created o).expose ≡ []
        → (or_created o).forward ≡ []
        → push_rules lib net name s o ≡ []
    go none e f = unfold push_rules in refl
    go (some r) e f = unfold push_rules in rw (e, f) refl
