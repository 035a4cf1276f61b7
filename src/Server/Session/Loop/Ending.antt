-- ===== src/Server/Session/Loop/Ending.antt =====
-- What is left of a client when the handler of its connection has returned.
use clienthub.Prelude.{
  ℕ, ◌<◌, ◌≡◌, ◌≢◌, refl, ap, subst, String, none, some, List, [], length, ok, arith, ==_refl,
  nat_eq, string_eq,
}
use clienthub.Proto.Message.{Bytes, Message}
use clienthub.Proto.Payload.{Codec}
use clienthub.Crypto.{Primitives}
use clienthub.Registry.{TunnelSession, get_client, get_tunnel}
use clienthub.Registry.Laws.{get_client-remove_client, remove_client_leaves}
use clienthub.Relay.{Write}
use clienthub.Store.{Clients}
use clienthub.Tunnel.{read_encrypted_message}
use clienthub.Tunnel.Stream.{read_loop-returns, read_loop-keeps, length-rest}
use clienthub.Server.State.{Server, Library, Net, registry-drop_client}
use clienthub.Server.Session.{accept_client, end_client, new_session}
use clienthub.Server.Session.Sections.{
  accept_client-Reaches, handle_message-Reaches, end_client-Reaches,
}
use clienthub.Server.Session.Loop.{
  Round, handle_client, from_first, serve, on_message, is_done, left,
}
use clienthub.Server.Steps.{Reaches, joined, IsNew}
use clienthub.Server.Steps.Invariant.{IsOrderly, Reaches-IsOrderly}

-- No client has the name, and no tunnel has it at an end.
pub record IsGone (name : String) (s : Server) : Type 0 where
  pub client : get_client name s.registry ≡ none
  pub tunnels :
      (id : ℕ) (t : TunnelSession)
      → get_tunnel id s.registry ≡ some t
      → (t.source_client ≢ name) × (t.target_client ≢ name)

end_client-IsGone : (name : String) (s : Server) → IsOrderly s → IsGone name (end_client name s)
unfolding end_client
end_client-IsGone name s o =
    let r = s.registry in
    record {
      client =
          rw (registry-drop_client name s)
            (rw (get_client-remove_client name name r) (rw (==_refl name) refl));
      tunnels = λ id t e.
          let (_, source, target) =
            (remove_client_leaves name name id t (new_session name 0 0) r
                o.registry.tunnels_distinct).0.0
              (rw (registry-drop_client name s) at e) in
          (source, target);
    }

module _ (p : Primitives) (key : Bytes) (lib : Library) (net : List Write → Net) (conn now : ℕ)
    (between : Server → Server) (codec : Codec Clients)
    (run : (u : Server) → Reaches codec u (between u)) where
  -- On a server in order, a new connection whose first message gets a session ends, with fuel above the
  -- number of its bytes, if what others do is made of critical sections. Then no client has its name
  -- and no tunnel has it at an end, and the server is in order.
  pub handle_client_ends :
      (fuel : ℕ) (stream rest : Bytes) (msg : Message) (s u : Server) (ws : List Write)
      (name : String)
      → IsOrderly s
      → IsNew conn s
      → length stream < fuel
      → read_encrypted_message p key stream ≡ ok (msg, rest)
      → accept_client p key lib (net []) conn now (some msg) s ≡ (u, ws, some name)
      → (t : Round) × (handle_client p key lib net conn now between fuel stream s ≡ some t)
        × IsGone name t.0
        × IsOrderly t.0
  unfolding handle_client from_first serve
  handle_client_ends fuel stream rest msg s u ws name orderly new k read accepted =
      let shorter = length-rest p key stream msg rest read in
      let on = on_message p key lib net conn now between name in
      let done = is_done p key lib net conn now between in
      let (v, e) = read_loop-returns p key on done rest (u, ws) in
      let ended = e fuel (omega arith) in
      let begun : Reaches codec s u =
        subst (λ x. Reaches codec s x.0) accepted
          (accept_client-Reaches codec lib (net []) p key conn now (some msg) s new) in
      let reached =
        read_loop-keeps p key on done (λ x. Reaches codec s x.0)
          (λ m x q.
            joined codec (joined codec q (run x.0))
              (handle_message-Reaches codec lib (net x.1) now conn name m (between x.0)))
          fuel rest (u, ws) v ended begun in
      let last = joined codec reached (run v.0) in
      (
        (end_client name (between v.0), v.1),
        rw read (rw accepted (ap (left p key lib net conn now between name) ended)),
        end_client-IsGone name (between v.0) (Reaches-IsOrderly codec last orderly),
        Reaches-IsOrderly codec
            (joined codec last (end_client-Reaches codec lib (net []) name (between v.0))) orderly,
      )
