-- ===== src/Registry/Listing.antt =====
-- ListTunnels and ListClients against GetTunnel and GetClient.
use mathlib.Core.Option
use clienthub.Prelude.{
  ℕ, ◌≡◌, refl, String, Option, none, some, List, [], ◌∷◌, map, ◌==◌, string_eq, nat_eq,
  if◌then◌else◌, arith, Map, lookup, All, All-of_lookup,
}
use clienthub.Proto.Payload.{ClientInfo, TunnelInfo}
use clienthub.Registry.{
  Registry, ClientSession, TunnelSession, client_info, tunnel_info, list_clients, list_tunnels,
  get_client, get_tunnel,
}
use clienthub.Registry.Invariant.{IsFiled}

-- The row of the listing for a session number, and the one for a name.
abbrev pub find_tunnel : ℕ → List TunnelInfo → Option TunnelInfo
find_tunnel id [] = none
find_tunnel id (t ∷ ts) = if t.session_id == id then some t else find_tunnel id ts

abbrev pub find_client : String → List ClientInfo → Option ClientInfo
find_client name [] = none
find_client name (c ∷ cs) = if c.name == name then some c else find_client name cs

find_tunnel-map :
    (id : ℕ) (m : Map ℕ TunnelSession)
    → All (λ e. e.1.id ≡ e.0) m
    → find_tunnel id (map (λ e. tunnel_info e.1) m) ≡ Option.map tunnel_info (lookup id m)
find_tunnel-map id [] h = refl
find_tunnel-map id ((j, t) ∷ m) h = ground (arith, find_tunnel-map id m h.1)

find_client-map :
    (addr rfc3339 : ℕ → String) (name : String) (m : Map String ClientSession)
    → All (λ e. e.1.name ≡ e.0) m
    → find_client name (map (λ e. client_info addr rfc3339 e.1) m)
      ≡ Option.map (client_info addr rfc3339) (lookup name m)
find_client-map addr rfc3339 name [] h = refl
find_client-map addr rfc3339 name ((j, c) ∷ m) h =
    ground (arith, find_client-map addr rfc3339 name m h.1, h.0)

-- In a registry in order, ListTunnels has a row for a number exactly if GetTunnel finds a tunnel of
-- that number, and the row describes that tunnel.
pub find_tunnel-list_tunnels :
    (id : ℕ) (r : Registry)
    → IsFiled r
    → find_tunnel id (list_tunnels r) ≡ Option.map tunnel_info (get_tunnel id r)
unfolding list_tunnels get_tunnel
find_tunnel-list_tunnels id r h =
    find_tunnel-map id r.tunnels
      (All-of_lookup (λ k t. t.id ≡ k) r.tunnels h.tunnels_distinct h.numbered)

-- In a registry in order, ListClients has a row for a name exactly if GetClient finds a session of
-- that name, and the row describes that session.
pub find_client-list_clients :
    (addr rfc3339 : ℕ → String) (name : String) (r : Registry)
    → IsFiled r
    → find_client name (list_clients addr rfc3339 r)
      ≡ Option.map (client_info addr rfc3339) (get_client name r)
unfolding list_clients get_client
find_client-list_clients addr rfc3339 name r h =
    find_client-map addr rfc3339 name r.clients
      (All-of_lookup (λ k c. c.name ≡ k) r.clients h.clients_distinct h.named)
