-- ===== src/Server/OpenTunnel/Outcome.antt =====
-- What a request for a tunnel leads to, on every branch.
use clienthub.Prelude.{
  ℕ, ◌+◌, ◌%◌, ◌^◌, ◌≡◌, refl, String, true, false, none, some, ◌∷◌, insert, Option-cases, ◌==◌,
  ==_refl, nat_eq, if◌then◌else◌, arith, lookup-insert, lookup-delete, inl, inr,
}
use clienthub.Proto.Message.{Message}
use clienthub.Proto.Payload.{OpenTunnelPayload, decode_json}
use clienthub.Registry.{
  ClientSession, new_tunnel, get_client, get_tunnel, allocate_session, remove_tunnel,
}
use clienthub.Server.State.{Server, Library, Net, send}
use clienthub.Server.OpenTunnel.{
  handle_open_tunnel, has_service, tunnel_fail, tunnel_ready, on_request, to_target, connect,
  notified,
}

module _ (lib : Library) (net : Net) (now conn : ℕ) (client_name : String) (msg : Message)
    (s : Server) where
  -- The number that the next tunnel gets.
  abbrev pub next_tunnel : ℕ
  next_tunnel = (s.registry.next_sess + 1) % 2 ^ 32

  -- The request is for a connected client that offers the service.
  pub record IsServed (req : OpenTunnelPayload) (target : ClientSession) : Type 0 where
    pub asked : decode_json lib.open_tunnel msg.payload ≡ some req
    pub connected : get_client req.target_client s.registry ≡ some target
    pub offered : has_service req.target_service target.services ≡ true

  new_tunnel-found :
      (req : OpenTunnelPayload)
      → get_tunnel next_tunnel
          (allocate_session client_name req.target_client req.target_service req.protocol now
            s.registry).1
        ≡ some (
            new_tunnel next_tunnel client_name req.target_client req.target_service req.protocol
              now)
  unfolding get_tunnel allocate_session
  new_tunnel-found req = ground (
    arith,
    lookup-insert next_tunnel next_tunnel
        (new_tunnel next_tunnel client_name req.target_client req.target_service req.protocol now)
        s.registry.tunnels,
    ==_refl next_tunnel,
  )

  -- A request for a connected client that offers the service, whose announcement reaches that
  -- client, opens a tunnel with the ends and the service that were asked for, under the next
  -- number. The target is told first, under that number; the source is then told under the number
  -- of its request, and both are told the tunnel's number.
  pub handle_open_tunnel_opens :
      (req : OpenTunnelPayload) (target : ClientSession)
      → IsServed req target
      → let ready = tunnel_ready lib target.conn next_tunnel next_tunnel client_name req in
        let reply = tunnel_ready lib conn msg.session_id next_tunnel client_name req in
        net ready ≡ none
        → let (s', ws) = handle_open_tunnel lib net now conn client_name msg s in
          (get_tunnel next_tunnel s'.registry
            ≡ some (
                new_tunnel next_tunnel client_name req.target_client req.target_service req.protocol
                  now))
          × (ws ≡ ready ∷ send net reply)
  unfolding handle_open_tunnel get_tunnel allocate_session
  handle_open_tunnel_opens req target v e =
      rw (v.asked, on_request)
        (rw (v.connected, to_target)
          (rw v.offered (unfold connect in rw (e, notified) (new_tunnel-found req, refl))))

  -- If the announcement to the target fails, no tunnel has the number that was drawn, every other
  -- tunnel is as it was, and the source alone is told: its request has failed.
  pub handle_open_tunnel_unreachable :
      (req : OpenTunnelPayload) (target : ClientSession) (why : String) (id : ℕ)
      → IsServed req target
      → net (tunnel_ready lib target.conn next_tunnel next_tunnel client_name req) ≡ some why
      → let (s', ws) = handle_open_tunnel lib net now conn client_name msg s in
        (get_tunnel id s'.registry ≡ (if next_tunnel == id then none else get_tunnel id s.registry))
        × (ws ≡ send net (tunnel_fail lib conn msg.session_id "target unreachable"))
  unfolding handle_open_tunnel get_tunnel allocate_session remove_tunnel
  handle_open_tunnel_unreachable req target why id v e =
      rw (v.asked, on_request)
        (rw (v.connected, to_target)
          (rw v.offered (
            unfold connect in
            rw (e, notified)
              (
                ground (
                  arith,
                  lookup-delete next_tunnel id (
                      insert next_tunnel
                        (new_tunnel next_tunnel client_name req.target_client req.target_service
                          req.protocol now)
                        s.registry.tunnels),
                  lookup-insert next_tunnel id
                      (new_tunnel next_tunnel client_name req.target_client req.target_service
                        req.protocol now)
                      s.registry.tunnels,
                ),
                refl,
              ))))

  -- A request for a client that is not connected, or for a service that it does not offer, changes
  -- nothing, and the source is told under the number of its request.
  pub handle_open_tunnel_refuses :
      (req : OpenTunnelPayload)
      → decode_json lib.open_tunnel msg.payload ≡ some req
      → ((target : ClientSession)
          → get_client req.target_client s.registry ≡ some target
          → has_service req.target_service target.services ≡ false)
      → let (s', ws) = handle_open_tunnel lib net now conn client_name msg s in
        (s' ≡ s)
        × ((reason : String) × (ws ≡ send net (tunnel_fail lib conn msg.session_id reason)))
  unfolding handle_open_tunnel
  handle_open_tunnel_refuses req d h =
      rw (d, on_request)
        (elim (Option-cases (get_client req.target_client s.registry)) [
          | inl e ↦ rw (e, to_target) (refl, (_, refl))
          | inr (target, e) ↦ rw (e, to_target) (rw (h target e) (refl, (_, refl)))
        ])
