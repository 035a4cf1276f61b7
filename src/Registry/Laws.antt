-- ===== src/Registry/Laws.antt =====
-- What each method of the registry changes, as its readers see it.
use clienthub.Prelude.{
  ℕ, ◌≡◌, ◌≢◌, ◌↔◌, String, Option, none, some, List, ◌==◌, ==_iff, string_eq, nat_eq,
  if◌then◌else◌, arith, lookup, lookup-insert, lookup-delete, lookup-delete_if, unless, Distinct,
  Option-cases, inl, inr,
}
use clienthub.Proto.Payload.{ServiceInfo}
use clienthub.Registry.{
  Registry, ClientSession, TunnelSession, involves, add_client, remove_client, get_client,
  get_tunnel, remove_tunnel, update_services,
}

pub get_client-add_client :
    (s : ClientSession) (name : String) (r : Registry)
    → get_client name (add_client s r) ≡ (if s.name == name then some s else get_client name r)
unfolding get_client add_client
get_client-add_client s name r = lookup-insert s.name name s r.clients

-- RemoveClient takes the named client out and no other.
pub get_client-remove_client :
    (name other : String) (r : Registry)
    → get_client other (remove_client name r).0
      ≡ (if name == other then none else get_client other r)
unfolding get_client remove_client
get_client-remove_client name other r = lookup-delete name other r.clients

-- What RemoveClient leaves of a tunnel, by the loop's test.
pub get_tunnel-remove_client :
    (name : String) (id : ℕ) (r : Registry)
    → Distinct r.tunnels
    → get_tunnel id (remove_client name r).0 ≡ unless (involves name) (get_tunnel id r)
unfolding get_tunnel remove_client
get_tunnel-remove_client name id r h = lookup-delete_if (involves name) id r.tunnels h

-- After RemoveClient, where no number stands twice, the tunnels are those that were there and have
-- the removed client at neither end, and the clients are those that were there under another name.
pub remove_client_leaves :
    (name other : String) (id : ℕ) (t : TunnelSession) (c : ClientSession) (r : Registry)
    → Distinct r.tunnels
    → let r' = (remove_client name r).0 in
      ((get_tunnel id r' ≡ some t)
        ↔ ((get_tunnel id r ≡ some t) × (t.source_client ≢ name) × (t.target_client ≢ name)))
      × ((get_client other r' ≡ some c) ↔ ((get_client other r ≡ some c) × (other ≢ name)))
remove_client_leaves name other id t c r d = (
  rw (get_tunnel-remove_client name id r d) (left (get_tunnel id r)),
  rw (get_client-remove_client name other r)
      ((λ e. ground (arith, ==_iff name other), λ e. ground (arith, ==_iff name other))),
)
  where
    left :
        (o : Option TunnelSession)
        → (unless (involves name) o ≡ some t)
          ↔ ((o ≡ some t) × (t.source_client ≢ name) × (t.target_client ≢ name))
    left none = (λ e. cc, λ e. cc (e.0))
    left (some u) = (
      λ e. ground (arith, ==_iff u.source_client name, ==_iff u.target_client name),
      λ e. ground (arith, ==_iff u.source_client name, ==_iff u.target_client name),
    )

pub get_tunnel-remove_tunnel :
    (id other : ℕ) (r : Registry)
    → get_tunnel other (remove_tunnel id r) ≡ (if id == other then none else get_tunnel other r)
unfolding get_tunnel remove_tunnel
get_tunnel-remove_tunnel id other r = lookup-delete id other r.tunnels

-- UpdateServices changes the services of the named client, if it is there, and nothing else.
abbrev pub with_services : List ServiceInfo → Option ClientSession → Option ClientSession
with_services services none = none
with_services services (some c) = some (record c { services = services })

pub get_client-update_services :
    (name other : String) (services : List ServiceInfo) (r : Registry)
    → get_client other (update_services name services r)
      ≡ (if name == other then with_services services (get_client other r) else get_client other r)
unfolding get_client update_services
get_client-update_services name other services r = elim (Option-cases (lookup name r.clients)) [
  | inl e ↦ ground (arith, ==_iff name other)
  | inr (c, e) ↦ ground (
    arith,
    ==_iff name other,
    lookup-insert name other (record c { services = services }) r.clients,
  )
]
