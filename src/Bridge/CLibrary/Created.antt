-- ===== src/Bridge/CLibrary/Created.antt =====
-- An object that was created is found again under the handle that the application got.
use clienthub.Prelude.{
  ℕ, ◌%◌, ◌^◌, ◌<◌, ◌≡◌, refl, ap, ◌∙◌, String, false, ◌||◌, [], ◌==◌, string_eq, int_eq, nat_eq,
  pos, ok, returns, arith,
}
use clienthub.Config.{ClientConfig}
use clienthub.Bridge.Callbacks.{status_disconnected}
use clienthub.Bridge.Hub.{Json}
use clienthub.Bridge.Hub.Status.{client_get_status-client_create}
use clienthub.Bridge.CLibrary.{
  CLibrary, get_hub, c_int, c_hub_client_create, c_hub_client_get_status, numbered, delivered,
}

-- A handle below 2^31 is the same number in C.
pub c_int-small : (n : ℕ) → n < 2 ^ 31 → c_int (pos n) ≡ pos n
c_int-small n h = let same : n % 2 ^ 32 ≡ n = omega arith in rw same (ground arith)

module _ (json : Json) (c : CLibrary) (n : ℕ) where
  -- As long as fewer than 2^31 handles were given, a C program that creates a client from a complete
  -- configuration gets a handle under which the client is found, disconnected, and its functions are
  -- not called.
  pub c_hub_client_get_status-c_hub_client_create :
      (config_json : String) (cfg : ClientConfig)
      → (get_hub c).registry.next_id ≡ pos n
      → n < 2 ^ 31
      → json.client_config config_json ≡ ok cfg
      → (cfg.server_addr == "" || cfg.client_name == "" || cfg.secret == "") ≡ false
      → let ((c', handle), calls) = c_hub_client_create json config_json c in
        (c_hub_client_get_status json handle c'
          ≡ returns (json.status status_disconnected cfg.client_name cfg.server_addr))
        × (calls ≡ [])
  unfolding c_hub_client_create c_hub_client_get_status numbered delivered
  c_hub_client_get_status-c_hub_client_create config_json cfg i l e f =
      let (told, id, silent) =
        client_get_status-client_create json (get_hub c) config_json cfg e f in
      let handle = id ∙ i in
      let same = ap c_int handle ∙ c_int-small n l in (rw (same, ← handle) told, rw silent refl)
