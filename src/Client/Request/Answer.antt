-- ===== src/Client/Request/Answer.antt =====
-- What a request for a tunnel returns.
use clienthub.Prelude.{
  ℕ, ◌≡◌, String, true, false, none, some, [], ◌∷◌, lookup, ==_refl, nat_eq, string_eq, arith,
  lookup-insert, lookup-delete, err, Result,
}
use clienthub.Proto.Message.{Bytes, Message, new_message, msg_open_tunnel}
use clienthub.Proto.Payload.{OpenTunnelPayload, TunnelReadyPayload, TunnelFailPayload, decode_json}
use clienthub.Client.State.{Client, Library, Net}
use clienthub.Client.Tunnels.{handle_tunnel_ready, handle_tunnel_fail}
use clienthub.Client.Request.{
  Return, returns, panics, by_channel, OpenError, Meanwhile, Opened, next_id, filed, forget,
  unless_zero, open_tunnel,
}

module _ (lib : Library) (net : Net) (target_client target_service protocol : String)
    (payload : Bytes) (c : Client) where
  abbrev pub request : OpenTunnelPayload
  request = record {
    target_client = target_client;
    target_service = target_service;
    protocol = protocol;
  }

  -- The request that is written.
  abbrev pub asking : Message
  asking = new_message msg_open_tunnel (next_id c) payload

  -- Without a connection the call panics: the writer is used without a test for nil.
  pub open_tunnel_panics :
      (meanwhile : Meanwhile)
      → lib.open_tunnel.marshal request ≡ some payload
      → c.connected ≡ false
      → open_tunnel lib net meanwhile target_client target_service protocol c ≡ panics
  unfolding open_tunnel
  open_tunnel_panics meanwhile em ec = ground arith

  -- What a wait for the request leaves: no pending entry for it.
  abbrev pub IsForgotten : Return Opened → Result OpenError ℕ → Type 0
  IsForgotten o r =
      (c' : Client) × (o ≡ returns ((r, c'), asking ∷ [])) × (lookup (next_id c) c'.pending ≡ none)

  -- On a connection, a request whose write succeeds and that is answered by a TunnelReady for this
  -- client with the request's number returns the tunnel's number, where zero counts as a failure,
  -- and is not pending afterwards.
  pub open_tunnel_answered :
      (msg : Message) (ready : TunnelReadyPayload)
      → lib.open_tunnel.marshal request ≡ some payload
      → c.connected ≡ true
      → net asking ≡ none
      → decode_json lib.tunnel_ready msg.payload ≡ some ready
      → msg.session_id ≡ next_id c
      → ready.source_client ≡ c.cfg.client_name
      → IsForgotten
          (open_tunnel lib net
            (λ c'. ((handle_tunnel_ready lib msg c').0, by_channel))
            target_client
            target_service
            protocol
            c)
          (unless_zero ready.session_id)
  unfolding open_tunnel handle_tunnel_ready
  open_tunnel_answered msg ready em ec en ed es ef = (
    forget (next_id c) ((handle_tunnel_ready lib msg (filed c)).0),
    ground (
      arith,
      lookup-insert (next_id c) (next_id c) c.next_channel c.pending,
      lookup-insert c.next_channel c.next_channel none c.channels,
      lookup-insert c.next_channel c.next_channel (some ready.session_id) (filed c).channels,
      ==_refl (next_id c),
      ==_refl c.next_channel,
      ==_refl c.cfg.client_name,
    ),
    ground (
      arith,
      lookup-delete (next_id c) (next_id c) ((handle_tunnel_ready lib msg (filed c)).0).pending,
      ==_refl (next_id c),
    ),
  )

  -- A TunnelFail with the request's number makes the call fail.
  pub open_tunnel_failed :
      (msg : Message) (fail : TunnelFailPayload)
      → lib.open_tunnel.marshal request ≡ some payload
      → c.connected ≡ true
      → net asking ≡ none
      → decode_json lib.tunnel_fail msg.payload ≡ some fail
      → msg.session_id ≡ next_id c
      → IsForgotten
          (open_tunnel lib net
            (λ c'. (handle_tunnel_fail lib msg c', by_channel))
            target_client
            target_service
            protocol
            c)
          (err OpenError.unavailable)
  unfolding open_tunnel handle_tunnel_fail
  open_tunnel_failed msg fail em ec en ed es = (
    forget (next_id c) (handle_tunnel_fail lib msg (filed c)),
    ground (
      arith,
      lookup-insert (next_id c) (next_id c) c.next_channel c.pending,
      lookup-insert c.next_channel c.next_channel none c.channels,
      lookup-insert c.next_channel c.next_channel (some 0) (filed c).channels,
      ==_refl (next_id c),
      ==_refl c.next_channel,
      ==_refl c.cfg.client_name,
    ),
    ground (
      arith,
      lookup-delete (next_id c) (next_id c) (handle_tunnel_fail lib msg (filed c)).pending,
      ==_refl (next_id c),
    ),
  )
