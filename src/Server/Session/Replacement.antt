-- ===== src/Server/Session/Replacement.antt =====
-- A client that connects again under the same name.
use clienthub.Prelude.{ℕ, ◌≡◌, ap, String, none, some, ◌∷◌, ==_refl, string_eq, arith}
use clienthub.Proto.Message.{Bytes, Message}
use clienthub.Proto.Payload.{AuthPayload}
use clienthub.Crypto.{Primitives, IsCorrect}
use clienthub.Registry.{ClientSession, get_client}
use clienthub.Registry.Laws.{get_client-add_client, get_client-remove_client}
use clienthub.Server.State.{
  Server, Library, Net, drop_client, registry-drop_client, closed-drop_client,
}
use clienthub.Server.Session.{
  accept_client, admit, kick_existing, greeted, new_session, auth_ok, end_client,
}
use clienthub.Server.Session.Authentication.{IsProof, accept_client-proof}

-- The client that was registered is dropped, and its connection is the one that is closed.
drop_client_lem :
    (name : String) (s : Server) (old : ClientSession)
    → get_client name s.registry ≡ some old
    → (get_client name (drop_client name s).registry ≡ none)
      × ((drop_client name s).closed ≡ old.conn ∷ s.closed)
drop_client_lem name s old e = (
  ground (
    arith,
    ap (λ r. get_client name r) (registry-drop_client name s),
    get_client-remove_client name name s.registry,
    ==_refl name,
  ),
  closed-drop_client name s old e,
)

module _ (net : Net) (conn now : ℕ) (s : Server) where
  admit-existing :
      (name : String) (old : ClientSession)
      → get_client name s.registry ≡ some old
      → net (auth_ok conn) ≡ none
      → let s' = (admit net conn now name s).0 in
        (get_client name s'.registry ≡ some (new_session name conn now))
        × (s'.closed ≡ old.conn ∷ s.closed)
  unfolding admit
  admit-existing name old e ok' =
      rw (ok', greeted)
        (rw (e, kick_existing)
          (
            ground (
              arith,
              get_client-add_client (new_session name conn now) name (drop_client name s).registry,
              ==_refl name,
            ),
            (drop_client_lem name s old e).1,
          ))

module _ (p : Primitives) (c : IsCorrect p) (key : Bytes) (lib : Library) (net : Net) (conn now : ℕ)
    (s : Server) where
  -- A client that proves a name that is registered gets its new session, if the answer can be
  -- written, and the old connection is closed. But when the handler of the old connection then
  -- ends, its deferred call drops whatever session has the name: the new session is gone, and the
  -- new connection is closed.
  pub replaced_session_dropped :
      (msg : Message) (auth : AuthPayload) (old : ClientSession)
      → IsProof p key lib msg auth
      → get_client auth.client_name s.registry ≡ some old
      → net (auth_ok conn) ≡ none
      → let s' = (accept_client p key lib net conn now (some msg) s).0 in
        let s'' = end_client auth.client_name s' in
        (get_client auth.client_name s'.registry ≡ some (new_session auth.client_name conn now))
        × (s'.closed ≡ old.conn ∷ s.closed)
        × (get_client auth.client_name s''.registry ≡ none)
        × (s''.closed ≡ conn ∷ (old.conn ∷ s.closed))
  unfolding end_client
  replaced_session_dropped msg auth old h e ok' =
      rw (accept_client-proof p c key lib net conn now s msg auth h) (
        let name = auth.client_name in
        let s' = (admit net conn now name s).0 in
        let (new, closed) = admit-existing net conn now s name old e ok' in
        let (gone, dropped) = drop_client_lem name s' (new_session name conn now) new in
        (new, closed, gone, ground (arith, dropped, closed)))
