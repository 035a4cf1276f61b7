-- ===== src/Handshake.antt =====
-- pkg/client/client.go and pkg/server/server.go together: authenticate at one end of a connection and
-- handleClient at the other.
use clienthub.Prelude.{ℕ, ◌≡◌, ◌≢◌, refl, String, Option, none, some, List, [], ◌∷◌}
use clienthub.Proto.Message.{Bytes, Message, new_message, msg_auth}
use clienthub.Crypto.{Primitives, IsCorrect, compute_auth_token}
use clienthub.Registry.{get_client}
use clienthub.Relay.{Write}
use clienthub.Server.State.{Server, Library}
use clienthub.Server.Session.{accept_client, new_session, auth_ok, auth_fail, close}
use clienthub.Server.Session.Authentication.{
  IsProof, accept_client_complete, accept_client_wrong_token,
}
use clienthub.Client.State.{Client}
use clienthub.Client.Session.{authenticate, credentials, auth_failed}

-- The first message of what the server writes.
abbrev pub first_of : List Write → Option Message
first_of [] = none
first_of (w ∷ ws) = some w.1

-- The message of the client, where Marshal gives these bytes.
abbrev pub hello : Bytes → Message
hello payload = new_message msg_auth 0 payload

module _ (p : Primitives) (correct : IsCorrect p) (server_key client_key : Bytes) (lib : Library)
    (server_net : Write → Option String) (client_net : Message → Option String) (conn now : ℕ)
    (s : Server) (c : Client) where
  -- What the client reads after it has written a message.
  abbrev pub reads : Message → Option Message
  reads m = first_of (accept_client p server_key lib server_net conn now (some m) s).1

  -- The token is written and read back, and both writes succeed.
  pub record IsCarried (payload : Bytes) (reply : Write) : Type 0 where
    pub marshals : lib.auth.marshal (credentials p client_key c) ≡ some payload
    pub unmarshals : lib.auth.unmarshal payload ≡ some (credentials p client_key c)
    pub written : client_net (hello payload) ≡ none
    pub replied : server_net reply ≡ none

  -- A client and a server that have one key agree, if the client's token is encoded and decoded as
  -- it was and both writes succeed: authenticate returns without an error, the connection runs
  -- under the client's name, and the server has a session under that name on this connection.
  pub authenticate-accept_client :
      (payload : Bytes)
      → server_key ≡ client_key
      → IsCarried payload (auth_ok conn)
      → let (s', ws, name) =
          accept_client p server_key lib server_net conn now (some (hello payload)) s in
        (authenticate p client_key lib client_net reads c ≡ (hello payload ∷ [], none))
        × (name ≡ some c.cfg.client_name)
        × (get_client c.cfg.client_name s'.registry ≡ some (new_session c.cfg.client_name conn now))
  unfolding authenticate
  authenticate-accept_client payload k h =
      let proof : IsProof p server_key lib (hello payload) (credentials p client_key c) = record {
        is_auth = refl;
        readable = h.unmarshals;
        token = rw k refl;
      } in
      let (name, ws, there) =
        accept_client_complete p correct server_key lib server_net conn now s (hello payload)
          (credentials p client_key c) proof h.replied in
      (rw (h.marshals, h.written, ws) refl, name, there)

  -- Where the two keys give the name different tokens, and the token is encoded and decoded as it
  -- was and both writes succeed, authenticate fails with ErrAuthFailed, no connection runs, and the
  -- server is as it was but for the closed connection.
  pub authenticate-accept_client_refused :
      (payload : Bytes)
      → compute_auth_token p c.cfg.client_name client_key
        ≢ compute_auth_token p c.cfg.client_name server_key
      → IsCarried payload (auth_fail conn)
      → let (s', ws, name) =
          accept_client p server_key lib server_net conn now (some (hello payload)) s in
        (authenticate p client_key lib client_net reads c ≡ (hello payload ∷ [], some auth_failed))
        × (name ≡ none)
        × (s' ≡ close conn s)
  unfolding authenticate
  authenticate-accept_client_refused payload k h =
      let wrong =
        accept_client_wrong_token p correct server_key lib server_net conn now s (hello payload)
          (credentials p client_key c) refl h.unmarshals k in
      rw (h.marshals, h.written, wrong, h.replied) (refl, refl, refl)
