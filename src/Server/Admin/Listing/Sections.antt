-- ===== src/Server/Admin/Listing/Sections.antt =====
-- The critical sections that the listings are made of.
use clienthub.Prelude.{
  ℕ, ◌≡◌, refl, String, not, ◌&&◌, List, [], ◌∷◌, All, ◌==◌, string_eq, if◌then◌else◌, is_empty,
  Bool-cases, inl, inr, Result, ok, err,
}
use clienthub.Proto.Message.{Message, msg_list_forwards}
use clienthub.Proto.Payload.{ClientInfo, decode_json}
use clienthub.Registry.{list_clients}
use clienthub.Relay.{Write}
use clienthub.Store.Order.{IsSound}
use clienthub.Store.Listing.{rules_under-list_expose}
use clienthub.Server.State.{Server, Library, Net}
use clienthub.Server.Pending.{Meanwhile}
use clienthub.Server.Admin.Listing.{
  handle_list_tunnels, handle_admin_list_clients, handle_admin_list_expose,
  handle_admin_list_forwards, collect, list_all, list_one, one_answered, filter_of, listed,
  wants_speed,
}
use clienthub.Server.Admin.Sections.{Ends}
use clienthub.Server.Admin.Probes.{Turn}
use clienthub.Server.Admin.Probes.Sections.{IsMade, probed-Reaches}
use clienthub.Server.Steps.{Reaches, here}
use clienthub.Server.Steps.Waiting.{Runs, forward_to_client_and_wait-Reaches}

module _ (lib : Library) (net : Net) (conn : ℕ) (msg : Message) (s : Server) where
  pub handle_list_tunnels-Reaches :
      Reaches lib.clients s (handle_list_tunnels lib net conn s).server
  unfolding handle_list_tunnels
  handle_list_tunnels-Reaches = here

  pub handle_admin_list_clients-Reaches :
      (turns : List Turn)
      → All (IsMade lib net) turns
      → Reaches lib.clients s (handle_admin_list_clients lib net turns conn msg s).server
  unfolding handle_admin_list_clients
  handle_admin_list_clients-Reaches turns made =
      let r = probed-Reaches lib net turns (list_clients lib.addr lib.rfc3339 s.registry) s made in
      elim (Bool-cases
        (not (is_empty msg.payload) && wants_speed (decode_json lib.list_clients msg.payload))) [
          | inl e ↦ rw e r
          | inr e ↦ rw e here
        ]

  module _ (m : String → Meanwhile) (run : (name : String) → Runs lib.clients (m name)) where
    collect-Reaches :
        (cs : List ClientInfo) (t : Server)
        → Reaches lib.clients s t
        → Reaches lib.clients s (collect lib net m cs t).1
    unfolding collect
    collect-Reaches [] t r = r
    collect-Reaches (c ∷ cs) t r = collect-Reaches cs _ (
        forward_to_client_and_wait-Reaches lib.clients lib net (m c.name) (run c.name) s t c.name
          msg_list_forwards [] r)

    server-one_answered :
        (ws : List Write) (r : Result String Message) (t : Server)
        → (one_answered lib net conn ws r t).server ≡ t
    unfolding one_answered
    server-one_answered ws (ok resp) t = refl
    server-one_answered ws (err e) t = refl

    pub handle_admin_list_forwards-Reaches :
        Reaches lib.clients s (handle_admin_list_forwards lib net m conn msg s).server
    unfolding handle_admin_list_forwards list_all list_one
    handle_admin_list_forwards-Reaches =
        let name =
          if is_empty msg.payload then "" else filter_of (decode_json lib.kick msg.payload) in
        elim (Bool-cases (name == "")) [
          | inl e ↦ rw e (collect-Reaches (list_clients lib.addr lib.rfc3339 s.registry) s here)
          | inr e ↦ rw e (
              rw server-one_answered (
                forward_to_client_and_wait-Reaches lib.clients lib net (m name) (run name) s s name
                  msg_list_forwards [] here))
        ]

  pub handle_admin_list_expose-Reaches :
      IsSound s.store → Ends lib net conn msg s (handle_admin_list_expose lib net conn msg s)
  unfolding handle_admin_list_expose
  handle_admin_list_expose-Reaches h =
      let name =
        if is_empty msg.payload then "" else filter_of (decode_json lib.kick msg.payload) in
      let (rs, e, _) = rules_under-list_expose name s.store h in rw (e, listed) (_, refl, here)
