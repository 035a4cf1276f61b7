-- ===== src/Server/Admin/Effects.antt =====
-- What the commands change.
use clienthub.Prelude.{
  ℕ, ◌≡◌, refl, ◌∙◌, String, true, ◌&&◌, Option, none, some, List, [], ◌∷◌, ◌==◌, ==_refl, ==_iff,
  string_eq, nat_eq, if◌then◌else◌, unless, Distinct, Result, ok, err, arith,
}
use clienthub.Proto.Message.{Message, msg_add_forward}
use clienthub.Proto.Payload.{
  KickPayload, AddForwardPayload, AddExposePayload, RemoveExposePayload, ForwardInfo, ExposeRule,
  decode_json,
}
use clienthub.Registry.{ClientSession, involves, get_client, get_tunnel}
use clienthub.Registry.Laws.{get_client-remove_client, get_tunnel-remove_client}
use clienthub.Store.{Store, SaveError, WriteOutcome, returns, add_forward, get_client_rules}
use clienthub.Store.Lookup.{
  find_expose, find_forward, find-add_forward, find-add_expose, find-remove_expose,
  get_client_rules-remove_expose,
}
use clienthub.Relay.{Write}
use clienthub.Server.State.{Server, Library, Net, registry-drop_client, closed-drop_client}
use clienthub.Server.Push.{push_config_to_client}
use clienthub.Server.Push.Content.{push_config_to_client_silent}
use clienthub.Server.Pending.{Meanwhile}
use clienthub.Server.Pending.Frame.{IsUntouched, forward_to_client_and_wait-keeps}
use clienthub.Server.Admin.{
  Handled, handle_kick, kick_named, kick_known, handle_admin_add_forward, add_forward_of, answered,
  handle_admin_add_expose, add_expose_of, saved_reply, with_protocol, handle_admin_remove_expose,
  remove_expose_of, expose_removed,
}

-- Kicking a connected client takes it out of the registry with every tunnel that involves it,
-- leaves all other clients and tunnels, where no tunnel's number stands twice, and closes its
-- connection.
pub handle_kick_drops :
    (lib : Library) (net : Net) (conn : ℕ) (msg : Message) (s : Server) (kick : KickPayload)
    (client : ClientSession) (other : String) (id : ℕ)
    → decode_json lib.kick msg.payload ≡ some kick
    → get_client kick.client_name s.registry ≡ some client
    → Distinct s.registry.tunnels
    → let s' = (handle_kick lib net conn msg s).server in
      (get_client other s'.registry
        ≡ (if kick.client_name == other then none else get_client other s.registry))
      × (get_tunnel id s'.registry ≡ unless (involves kick.client_name) (get_tunnel id s.registry))
      × (s'.closed ≡ client.conn ∷ s.closed)
unfolding handle_kick
handle_kick_drops lib net conn msg s kick client other id d e h =
    rw (d, kick_named)
      (rw (e, kick_known)
        (
          rw (registry-drop_client kick.client_name s)
              (get_client-remove_client kick.client_name other s.registry),
          rw (registry-drop_client kick.client_name s)
              (get_tunnel-remove_client kick.client_name id s.registry h),
          closed-drop_client kick.client_name s client e,
        ))

-- The wait for a client leaves the store as it is.
abbrev pub KeepsStore : Meanwhile → Type 0
KeepsStore meanwhile = (t : Server) → (meanwhile t).0.store ≡ t.store

store-IsUntouched :
    (store : Store) (meanwhile : Meanwhile)
    → KeepsStore meanwhile
    → IsUntouched (λ t. t.store ≡ store) meanwhile
store-IsUntouched store meanwhile k = record {
  on_filed = λ t e. e;
  on_meanwhile = λ t e. k t ∙ e;
  on_received = λ t ch e. e;
  on_forget = λ t id e. e;
}

pub server-answered :
    (lib : Library) (net : Net) (conn : ℕ) (format : String) (ws : List Write)
    (r : Result String Message) (s : Server)
    → (answered lib net conn format ws r s).server ≡ s
unfolding answered
server-answered lib net conn format ws (err e) s = refl
server-answered lib net conn format ws (ok resp) s = refl

abbrev pub info_of : AddForwardPayload → ForwardInfo
info_of req = record {
  client_name = req.client_name;
  listen_addr = req.listen_addr;
  remote_client = req.remote_client;
  remote_service = req.remote_service;
  protocol = req.protocol;
}

-- A forward rule whose command can be decoded is stored under its client and address, and every
-- other rule stays, whether the client is connected, answers, or does not, and whether the file can
-- be written, if what happens during the wait leaves the store alone.
pub handle_admin_add_forward_stores :
    (lib : Library) (net : Net) (w : WriteOutcome) (meanwhile : Meanwhile) (conn : ℕ)
    (msg : Message) (s : Server) (req : AddForwardPayload) (c n : String)
    → decode_json lib.add_forward msg.payload ≡ some req
    → KeepsStore meanwhile
    → let s' = (handle_admin_add_forward lib net w meanwhile conn msg s).server in
      (find_forward c n s'.store ≡ (
        if req.client_name == c && req.listen_addr == n
        then some (info_of req)
        else find_forward c n s.store))
      × (find_expose c n s'.store ≡ find_expose c n s.store)
unfolding handle_admin_add_forward
handle_admin_add_forward_stores lib net w meanwhile conn msg s req c n d k =
    rw (d, add_forward_of)
      (let stored = (add_forward lib.clients w req.client_name (info_of req) s.store).0 in
        let same =
          forward_to_client_and_wait-keeps (λ t. t.store ≡ stored) lib net meanwhile
            (store-IsUntouched stored meanwhile k) req.client_name msg_add_forward msg.payload
            (record s { store = stored }) refl in
        rw (server-answered, same)
          (find-add_forward lib.clients w req.client_name (info_of req) s.store c n))

pub server-saved_reply :
    (lib : Library) (net : Net) (conn : ℕ) (name message : String) (s : Server)
    (o : Option SaveError)
    → (saved_reply lib net conn name message s o).server ≡ s
unfolding saved_reply
server-saved_reply lib net conn name message s none = refl
server-saved_reply lib net conn name message s (some e) = refl

-- An expose rule whose command can be decoded is in force, with the protocol tcp if it named none,
-- even where the file could not be written; every other rule stays.
pub handle_admin_add_expose_stores :
    (lib : Library) (net : Net) (w : WriteOutcome) (conn : ℕ) (msg : Message) (s : Server)
    (req : AddExposePayload) (c n : String)
    → decode_json lib.add_expose msg.payload ≡ some req
    → let s' = (handle_admin_add_expose lib net w conn msg s).server in
      (find_expose c n s'.store ≡ (
        if req.client_name == c && req.rule.name == n
        then some (with_protocol req.rule)
        else find_expose c n s.store))
      × (find_forward c n s'.store ≡ find_forward c n s.store)
unfolding handle_admin_add_expose
handle_admin_add_expose_stores lib net w conn msg s req c n d =
    rw (d, add_expose_of)
      (rw server-saved_reply
        (find-add_expose lib.clients w req.client_name (with_protocol req.rule) s.store c n))

-- When a command removes the only rule of a client, the rule is gone from the store, whether or not
-- the file could be written, and the push that follows sends nothing.
pub unexpose_last_silent :
    (lib : Library) (net : Net) (w : WriteOutcome) (conn : ℕ) (msg : Message) (s : Server)
    (req : RemoveExposePayload) (rule : ExposeRule)
    → decode_json lib.remove_expose msg.payload ≡ some req
    → get_client_rules req.client_name s.store ≡ some (record { expose = rule ∷ []; forward = [] })
    → rule.name ≡ req.service_name
    → (h : Handled) × (handle_admin_remove_expose lib net w conn msg s ≡ returns h)
      × (find_expose req.client_name req.service_name h.server.store ≡ none)
      × (push_config_to_client lib net req.client_name h.server ≡ [])
unfolding handle_admin_remove_expose
unexpose_last_silent lib net w conn msg s req rule d e last =
    let (t, f, g) =
      get_client_rules-remove_expose lib.clients w req.client_name req.service_name s.store _ e in
    let here : (rule.name == req.service_name) ≡ true =
      (==_iff rule.name req.service_name).1 last in
    rw (d, remove_expose_of)
      (rw (f, expose_removed)
        (
          _,
          refl,
          rw server-saved_reply (
              ground (
                arith,
                find-remove_expose lib.clients w req.client_name req.service_name s.store
                    req.client_name req.service_name f,
                ==_refl req.client_name,
                ==_refl req.service_name,
              )),
          rw server-saved_reply (
              push_config_to_client_silent lib net req.client_name (record s { store = t.0 })
                (rw g (rw here refl)) (rw g refl)),
        ))
