-- ===== src/Opening.antt =====
-- pkg/client/proxy.go and pkg/server/server.go together: openTunnel at the client that asks,
-- handleOpenTunnel at the server, and handleTunnelReady at both clients.
use clienthub.Prelude.{
  ℕ, ◌≡◌, ◌≢◌, refl, String, Option, none, some, [], ◌∷◌, ==_iff, string_eq, nat_eq, arith, true,
}
use clienthub.Proto.Message.{Bytes, Message}
use clienthub.Proto.Payload.{OpenTunnelPayload, TunnelReadyPayload, encode_json}
use clienthub.Registry.{ClientSession, new_tunnel, get_tunnel}
use clienthub.Relay.{Write}
use clienthub.Server.State.{Server, Library}
use clienthub.Server.OpenTunnel.{handle_open_tunnel, tunnel_ready}
use clienthub.Server.OpenTunnel.Outcome.{next_tunnel, IsServed, handle_open_tunnel_opens}
use clienthub.Client.State.{Client}
use clienthub.Client.Tunnels.{handle_tunnel_ready}
use clienthub.Client.Request.{open_tunnel, by_channel, unless_zero}
use clienthub.Client.Request.Answer.{asking, IsForgotten, open_tunnel_answered}

-- A TunnelReady that names another client as its source starts a tunnel, and changes nothing else.
incoming_at_target :
    (lib : Library) (msg : Message) (d : Client) (ready : TunnelReadyPayload)
    → lib.tunnel_ready.unmarshal msg.payload ≡ some ready
    → d.cfg.client_name ≢ ready.source_client
    → handle_tunnel_ready lib msg d ≡ (d, some ready)
unfolding handle_tunnel_ready
incoming_at_target lib msg d ready e ne =
    ground (arith, ==_iff ready.source_client d.cfg.client_name)

module _ (lib : Library) (server_net : Write → Option String) (client_net : Message → Option String)
    (now conn : ℕ) (s : Server) (c d : Client) (req : OpenTunnelPayload) (payload : Bytes) where
  -- The request as the client writes it.
  abbrev pub requested : Message
  requested = asking lib client_net req.target_client req.target_service req.protocol payload c

  -- The number that the tunnel gets.
  abbrev pub number : ℕ
  number = next_tunnel lib server_net now conn c.cfg.client_name requested s

  abbrev pub announcement : TunnelReadyPayload
  announcement = record {
    session_id = number;
    source_client = c.cfg.client_name;
    target_service = req.target_service;
    protocol = req.protocol;
  }

  -- What the server writes to the target, and to the client that asks.
  abbrev pub to_target : ClientSession → Write
  to_target target = tunnel_ready lib target.conn number number c.cfg.client_name req

  abbrev pub to_source : Write
  to_source = tunnel_ready lib conn requested.session_id number c.cfg.client_name req

  -- The payloads are encoded and decoded as they were, and every write succeeds.
  pub record IsCarried (target : ClientSession) : Type 0 where
    pub marshals : lib.open_tunnel.marshal req ≡ some payload
    pub announces :
        lib.tunnel_ready.unmarshal (encode_json lib.tunnel_ready announcement) ≡ some announcement
    pub asked : client_net requested ≡ none
    pub told_target : server_net (to_target target) ≡ none
    pub told_source : server_net to_source ≡ none

  -- A connected client asks for a service that another connected client offers, the payloads are
  -- encoded and decoded as they were, and every write succeeds. Then the server writes to the target
  -- and to the client that asks, and has the tunnel that was asked for; the client's call returns the
  -- number of that tunnel, where zero counts as a failure, and its request is not pending any more;
  -- and the target starts a tunnel of that number, to that service, from that client.
  pub open_tunnel-handle_open_tunnel :
      (target : ClientSession)
      → c.connected ≡ true
      → d.cfg.client_name ≢ c.cfg.client_name
      → IsServed lib server_net now conn c.cfg.client_name requested s req target
      → IsCarried target
      → let (s', ws) = handle_open_tunnel lib server_net now conn c.cfg.client_name requested s in
        (ws ≡ to_target target ∷ to_source ∷ [])
        × (get_tunnel number s'.registry
            ≡ some (
                new_tunnel number c.cfg.client_name req.target_client req.target_service
                  req.protocol now))
        × IsForgotten lib client_net req.target_client req.target_service req.protocol payload c
            (open_tunnel lib client_net
              (λ c'. ((handle_tunnel_ready lib to_source.1 c').0, by_channel))
              req.target_client
              req.target_service
              req.protocol
              c)
            (unless_zero number)
        × (handle_tunnel_ready lib (to_target target).1 d ≡ (d, some announcement))
  open_tunnel-handle_open_tunnel target e ne served h =
      let (there, ws) =
        handle_open_tunnel_opens lib server_net now conn c.cfg.client_name requested s req target
          served h.told_target in
      (
        rw (ws, h.told_source) refl,
        there,
        open_tunnel_answered lib client_net req.target_client req.target_service req.protocol
            payload c to_source.1 announcement h.marshals e h.asked h.announces refl refl,
        incoming_at_target lib (to_target target).1 d announcement h.announces ne,
      )
