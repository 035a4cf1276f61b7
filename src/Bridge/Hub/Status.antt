-- ===== src/Bridge/Hub/Status.antt =====
-- What the application is told of a client.
use clienthub.Prelude.{
  ◌≡◌, refl, String, false, ◌||◌, [], ◌==◌, ==_refl, string_eq, int_eq, nat_eq, lookup-insert, ok,
  returns,
}
use clienthub.Config.{ClientConfig}
use clienthub.Bridge.Handles.{get, put}
use clienthub.Bridge.Callbacks.{status_disconnected}
use clienthub.Bridge.Hub.{
  Hub, Json, client_create, client_get_status, created, registered, with_defaults,
}

module _ (json : Json) (h : Hub) where
  registered-status :
      (cfg : ClientConfig)
      → client_get_status json (registered cfg h).1 (registered cfg h).0
        ≡ returns (json.status status_disconnected cfg.client_name cfg.server_addr)
  unfolding client_get_status registered get put
  registered-status cfg = rw (lookup-insert h.registry.next_id h.registry.next_id) (
      rw (==_refl h.registry.next_id)
        (rw (lookup-insert h.next_address h.next_address) (rw (==_refl h.next_address) refl)))

  -- A client that could be created, from a configuration that names a server, a client and a secret,
  -- is told to be disconnected, under its name and its server, and the application is told nothing
  -- else.
  pub client_get_status-client_create :
      (config_json : String) (cfg : ClientConfig)
      → json.client_config config_json ≡ ok cfg
      → (cfg.server_addr == "" || cfg.client_name == "" || cfg.secret == "") ≡ false
      → let ((t, id), fired) = client_create json config_json h in
        (client_get_status json id t
          ≡ returns (json.status status_disconnected cfg.client_name cfg.server_addr))
        × (id ≡ h.registry.next_id)
        × (fired ≡ [])
  unfolding client_create registered put
  client_get_status-client_create config_json cfg e f =
      rw (e, created) (rw f (registered-status (with_defaults cfg), refl, refl))
