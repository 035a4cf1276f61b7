-- ===== src/Client/Tunnels/Data.antt =====
-- The bytes of a tunnel at a client, and what closing it does.
use clienthub.Prelude.{
  ℕ, ◌≡◌, ◌≢◌, String, Bool, true, Option, none, some, [], ◌∷◌, lookup, ◌==◌, ==_iff, ==_refl,
  nat_eq, string_eq, if◌then◌else◌, arith, lookup-insert, lookup-delete,
}
use clienthub.Proto.Message.{Bytes, Message}
use clienthub.Proto.Payload.{TunnelReadyPayload}
use clienthub.Client.State.{Client, LocalTunnel, Net}
use clienthub.Client.Tunnels.{
  local_addr_of, handle_incoming_tunnel, handle_data, handle_close, close_tunnel,
}

-- Bytes for a tunnel that has no local connection yet reach none. When the service is exposed and
-- its connection is made and bound to the tunnel, later bytes, if the write succeeds, reach it, and
-- they alone.
pub handle_data_too_early :
    (net : Net) (dial : String → Option ℕ) (writes : ℕ → Bytes → Bool) (ready : TunnelReadyPayload)
    (early later : Message) (conn : ℕ) (c : Client)
    → lookup ready.session_id c.tunnels ≡ none
    → early.session_id ≡ ready.session_id
    → later.session_id ≡ ready.session_id
    → local_addr_of ready.target_service c.cfg.expose ≢ ""
    → dial (local_addr_of ready.target_service c.cfg.expose) ≡ some conn
    → writes conn later.payload ≡ true
    → let (c1, first) = handle_data writes early c in
      let (c2, ws) = handle_incoming_tunnel net dial ready c1 in
      (first ≡ none) × (ws ≡ []) × ((handle_data writes later c2).1 ≡ some (conn, later.payload))
unfolding handle_data handle_incoming_tunnel
handle_data_too_early net dial writes ready early later conn c en ee el ea ed ew =
    let addr = local_addr_of ready.target_service c.cfg.expose in
    ground (
      arith,
      ==_iff addr "",
      lookup-insert ready.session_id ready.session_id
          (record { session_id = ready.session_id; local_conn = conn; protocol = ready.protocol })
          c.tunnels,
      ==_refl ready.session_id,
    )

-- A close of a tunnel that the client has ends it and no other, and closes its local connection; a
-- second close of the same tunnel changes nothing.
pub handle_close_once :
    (msg : Message) (id : ℕ) (t : LocalTunnel) (c : Client)
    → lookup msg.session_id c.tunnels ≡ some t
    → let c' = handle_close msg c in
      (lookup id c'.tunnels ≡ (if msg.session_id == id then none else lookup id c.tunnels))
      × (c'.closed ≡ t.local_conn ∷ c.closed)
      × (handle_close msg c' ≡ c')
unfolding handle_close close_tunnel
handle_close_once msg id t c e = ground (
  arith,
  lookup-delete msg.session_id id c.tunnels,
  lookup-delete msg.session_id msg.session_id c.tunnels,
  ==_refl msg.session_id,
)
