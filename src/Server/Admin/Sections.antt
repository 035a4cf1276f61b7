-- ===== src/Server/Admin/Sections.antt =====
-- The critical sections that the commands of an administrator are made of.
use clienthub.Prelude.{ℕ, ◌≡◌, refl, Option-cases, inl, inr}
use clienthub.Proto.Message.{Message}
use clienthub.Proto.Payload.{decode_json}
use clienthub.Registry.{get_client}
use clienthub.Store.{WriteOutcome, Return, returns}
use clienthub.Store.Order.{Call, IsSound, step, step-IsSound}
use clienthub.Server.State.{Server, Library, Net}
use clienthub.Server.Pending.{Meanwhile}
use clienthub.Server.Admin.{
  Handled, handle_kick, kick_named, kick_known, handle_admin_add_forward, add_forward_of,
  handle_admin_remove_forward, remove_forward_of, forward_removed, handle_admin_add_expose,
  add_expose_of, with_protocol, handle_admin_remove_expose, remove_expose_of, expose_removed,
}
use clienthub.Server.Admin.Effects.{info_of, server-answered, server-saved_reply}
use clienthub.Server.Steps.{Step, Reaches, here, one}
use clienthub.Server.Steps.Waiting.{Runs, forward_to_client_and_wait-Reaches}

module _ (lib : Library) (net : Net) (conn : ℕ) (msg : Message) (s : Server) where
  -- The command returns, and what it did was made of critical sections.
  abbrev pub Ends : Return Handled → Type 0
  Ends r = (h : Handled) × (r ≡ returns h) × Reaches lib.clients s h.server

  pub handle_kick-Reaches : Reaches lib.clients s (handle_kick lib net conn msg s).server
  unfolding handle_kick
  handle_kick-Reaches = elim (Option-cases (decode_json lib.kick msg.payload)) [
    | inl e ↦ rw (e, kick_named) here
    | inr (kick, e) ↦
        rw (e, kick_named)
          (elim (Option-cases (get_client kick.client_name s.registry)) [
            | inl g ↦ rw (g, kick_known) here
            | inr (client, g) ↦ rw (g, kick_known) (one lib.clients (Step.drops s kick.client_name))
          ])
  ]

  pub handle_admin_add_expose-Reaches :
      (w : WriteOutcome)
      → Reaches lib.clients s (handle_admin_add_expose lib net w conn msg s).server
  unfolding handle_admin_add_expose step
  handle_admin_add_expose-Reaches w = elim (Option-cases (decode_json lib.add_expose msg.payload)) [
    | inl e ↦ rw (e, add_expose_of) here
    | inr (req, e) ↦
        rw (e, add_expose_of)
          (rw server-saved_reply (
            one lib.clients
              (Step.stores s (Call.exposes w req.client_name (with_protocol req.rule)) _ refl)))
  ]

  pub handle_admin_remove_expose-Reaches :
      (w : WriteOutcome) → IsSound s.store → Ends (handle_admin_remove_expose lib net w conn msg s)
  unfolding handle_admin_remove_expose step
  handle_admin_remove_expose-Reaches w h =
      elim (Option-cases (decode_json lib.remove_expose msg.payload)) [
        | inl e ↦ rw (e, remove_expose_of) (_, refl, here)
        | inr (req, e) ↦
            let call = Call.unexposes w req.client_name req.service_name in
            let (t, f, _) = step-IsSound lib.clients s.store call h in
            rw (e, remove_expose_of)
              (rw (f, expose_removed)
                (_, refl, rw server-saved_reply (one lib.clients (Step.stores s call t f))))
      ]

  module _ (m : Meanwhile) (run : Runs lib.clients m) where
    pub handle_admin_add_forward-Reaches :
        (w : WriteOutcome)
        → Reaches lib.clients s (handle_admin_add_forward lib net w m conn msg s).server
    unfolding handle_admin_add_forward step
    handle_admin_add_forward-Reaches w =
        elim (Option-cases (decode_json lib.add_forward msg.payload)) [
          | inl e ↦ rw (e, add_forward_of) here
          | inr (req, e) ↦
              rw (e, add_forward_of)
                (rw server-answered (
                  forward_to_client_and_wait-Reaches lib.clients lib net m run s _ _ _ _ (
                    one lib.clients
                      (Step.stores s (Call.forwards w req.client_name (info_of req)) _ refl))))
        ]

    pub handle_admin_remove_forward-Reaches :
        (w : WriteOutcome)
        → IsSound s.store
        → Ends (handle_admin_remove_forward lib net w m conn msg s)
    unfolding handle_admin_remove_forward step
    handle_admin_remove_forward-Reaches w h =
        elim (Option-cases (decode_json lib.remove_forward msg.payload)) [
          | inl e ↦ rw (e, remove_forward_of) (_, refl, here)
          | inr (req, e) ↦
              let call = Call.unforwards w req.client_name req.listen_addr in
              let (t, f, _) = step-IsSound lib.clients s.store call h in
              rw (e, remove_forward_of)
                (rw (f, forward_removed)
                  (
                    _,
                    refl,
                    rw server-answered (
                        forward_to_client_and_wait-Reaches lib.clients lib net m run s _ _ _ _
                          (one lib.clients (Step.stores s call t f))),
                  ))
        ]
