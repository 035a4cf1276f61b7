-- ===== src/Server/OpenTunnel/Sections.antt =====
-- The critical sections that handleRegister and handleOpenTunnel are made of.
use clienthub.Prelude.{ℕ, String, Option, none, some, Option-cases, Bool-cases, inl, inr}
use clienthub.Proto.Message.{Message}
use clienthub.Proto.Payload.{OpenTunnelPayload, Codec, decode_json}
use clienthub.Registry.{ClientSession, get_client, allocate_session}
use clienthub.Store.{Clients}
use clienthub.Server.State.{Server, Library, Net}
use clienthub.Server.OpenTunnel.{
  handle_register, handle_open_tunnel, has_service, on_request, to_target, connect, notified,
  register_services, tunnel_ready,
}
use clienthub.Server.Steps.{Step, Reaches, here, next, one}

module _ (codec : Codec Clients) (lib : Library) where
  pub handle_register-Reaches :
      (client_name : String) (msg : Message) (s : Server)
      → Reaches codec s (handle_register lib client_name msg s)
  unfolding handle_register
  handle_register-Reaches client_name msg s =
      elim (Option-cases (decode_json lib.register msg.payload)) [
        | inl e ↦ rw (e, register_services) here
        | inr (reg, e) ↦
            rw (e, register_services) (one codec (Step.updates s client_name reg.services))
      ]

  module _ (net : Net) (now conn : ℕ) (client_name : String) (msg : Message) (s : Server) where
    connect-Reaches :
        (req : OpenTunnelPayload) (target : ClientSession)
        → Reaches codec s (connect lib net now conn client_name msg.session_id req target s).0
    unfolding connect
    connect-Reaches req target =
        let opened =
          one codec
            (Step.allocates s client_name req.target_client req.target_service req.protocol now) in
        let (id, r) =
          allocate_session client_name req.target_client req.target_service req.protocol now
            s.registry in
        elim (Option-cases (net (tunnel_ready lib target.conn id id client_name req))) [
          | inl e ↦ rw (e, notified) opened
          | inr (why, e) ↦ rw (e, notified) (next opened (Step.ends_tunnel _ id))
        ]

    to_target-Reaches :
        (req : OpenTunnelPayload) (o : Option ClientSession)
        → Reaches codec s (to_target lib net now conn client_name msg.session_id req s o).0
    unfolding to_target
    to_target-Reaches req none = here
    to_target-Reaches req (some target) =
        elim (Bool-cases (has_service req.target_service target.services)) [
          | inl e ↦ rw e (connect-Reaches req target)
          | inr e ↦ rw e here
        ]

    pub handle_open_tunnel-Reaches :
        Reaches codec s (handle_open_tunnel lib net now conn client_name msg s).0
    unfolding handle_open_tunnel
    handle_open_tunnel-Reaches = elim (Option-cases (decode_json lib.open_tunnel msg.payload)) [
      | inl e ↦ rw (e, on_request) here
      | inr (req, e) ↦
          rw (e, on_request) (to_target-Reaches req (get_client req.target_client s.registry))
    ]
