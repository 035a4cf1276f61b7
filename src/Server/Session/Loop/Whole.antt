-- ===== src/Server/Session/Loop/Whole.antt =====
-- What the whole life of a connection does to the server.
use mathlib.Core.Option.{some-injective}
use clienthub.Prelude.{
  ℕ, ◌<◌, ◌≡◌, ◌∙◌, refl, subst, ap, String, Option, none, some, List, [], ◌++◌, length, Result, ok,
  err, arith,
}
use clienthub.Proto.Message.{Bytes, Message}
use clienthub.Crypto.{Primitives, IsCorrect}
use clienthub.Relay.{Write}
use clienthub.Tunnel.{Error, read_encrypted_message}
use clienthub.Tunnel.Stream.{
  AreFrames, IsCarried, read_loop, read_loop-returns, read_loop-keeps, read_loop-frames, handle_all,
  length-rest,
}
use clienthub.Tunnel.RoundTrip.{read_encrypted_message-write_message}
use clienthub.Proto.Payload.{Codec, AuthPayload}
use clienthub.Store.{Clients}
use clienthub.Server.State.{Server, Library, Net}
use clienthub.Server.Session.{Accepted, accept_client, close}
use clienthub.Server.Session.Authentication.{IsProof, accept_client_refuses}
use clienthub.Server.Session.Sections.{
  accept_client-Reaches, handle_message-Reaches, end_client-Reaches,
}
use clienthub.Server.Session.Loop.{
  Round, handle_client, from_first, serve, on_message, is_done, left,
}
use clienthub.Server.Steps.{Reaches, joined, IsNew}

module _ (p : Primitives) (key : Bytes) (lib : Library) (net : List Write → Net) (conn now : ℕ)
    (between : Server → Server) where
  serve-returns :
      (fuel : ℕ) (rest : Bytes) (a : Accepted)
      → length rest < fuel
      → (t : Round) × (serve p key lib net conn now between fuel rest a ≡ some t)
  unfolding serve
  serve-returns fuel rest (s, ws, none) h = ((s, ws), refl)
  serve-returns fuel rest (s, ws, some name) h =
      let (t, e) =
        read_loop-returns p key (on_message p key lib net conn now between name)
          (is_done p key lib net conn now between) rest (s, ws) in
      (_, ap (left p key lib net conn now between name) (e fuel h))

  -- The handler of a connection always ends: fuel above the number of the bytes that arrive is
  -- enough, whatever they are and whatever the other goroutines do.
  pub handle_client-returns :
      (fuel : ℕ) (stream : Bytes) (s : Server)
      → length stream < fuel
      → (t : Round) × (handle_client p key lib net conn now between fuel stream s ≡ some t)
  unfolding handle_client
  handle_client-returns fuel stream s h = go (read_encrypted_message p key stream) refl
    where
      go :
          (r : Result Error (Message × Bytes))
          → read_encrypted_message p key stream ≡ r
          → (t : Round) × (from_first p key lib net conn now between fuel s r ≡ some t)
      go (err e) f = serve-returns fuel [] _ (omega arith)
      go (ok (msg, rest)) f =
          serve-returns fuel rest _
            (let shorter = length-rest p key stream msg rest f in omega arith)

  module _ (codec : Codec Clients) (run : (u : Server) → Reaches codec u (between u)) where
    serve-Reaches :
        (fuel : ℕ) (rest : Bytes) (s : Server) (a : Accepted) (t : Round)
        → Reaches codec s a.0
        → serve p key lib net conn now between fuel rest a ≡ some t
        → Reaches codec s t.0
    unfolding serve
    serve-Reaches fuel rest s (u, ws, none) t r e =
        subst (λ x. Reaches codec s x.0) (some-injective _ _ e) r
    serve-Reaches fuel rest s (u, ws, some name) t r e = go _ refl e
      where
        loop : Option Round
        loop =
            read_loop p key (on_message p key lib net conn now between name)
              (is_done p key lib net conn now between) fuel rest (u, ws)

        go :
            (o : Option Round)
            → loop ≡ o
            → left p key lib net conn now between name o ≡ some t
            → Reaches codec s t.0
        go none f e = cc
        go (some (v, vs)) f e =
            let served =
              read_loop-keeps p key (on_message p key lib net conn now between name)
                (is_done p key lib net conn now between) (λ x. Reaches codec s x.0)
                (λ msg x q.
                  joined codec (joined codec q (run x.0))
                    (handle_message-Reaches codec lib (net x.1) now conn name msg (between x.0)))
                fuel rest (u, ws) (v, vs) f r in
            subst (λ x. Reaches codec s x.0) (some-injective _ _ e)
              (joined codec (joined codec served (run v))
                (end_client-Reaches codec lib (net []) name (between v)))

    -- All that the handler of a new connection does, from its first byte to its clean-up, is made of
    -- the critical sections, if what happens between its messages is.
    pub handle_client-Reaches :
        (fuel : ℕ) (stream : Bytes) (s : Server) (t : Round)
        → IsNew conn s
        → handle_client p key lib net conn now between fuel stream s ≡ some t
        → Reaches codec s t.0
    unfolding handle_client
    handle_client-Reaches fuel stream s t new e = go (read_encrypted_message p key stream) e
      where
        go :
            (r : Result Error (Message × Bytes))
            → from_first p key lib net conn now between fuel s r ≡ some t
            → Reaches codec s t.0
        go (err w) e =
            serve-Reaches fuel [] s _ t
              (accept_client-Reaches codec lib (net []) p key conn now none s new) e
        go (ok (msg, rest)) e =
            serve-Reaches fuel rest s _ t
              (accept_client-Reaches codec lib (net []) p key conn now (some msg) s new) e

  -- On a stream of frames that begins with a message which gets a session, the handler does exactly
  -- what the messages ask for, in their order, until the session is dropped, and then removes the
  -- session of that name.
  pub handle_client-frames :
      (correct : IsCorrect p) (fuel : ℕ) (hello : Message) (ms : List Message)
      (nonce frame stream : Bytes) (s u : Server) (ws : List Write) (name : String)
      → IsCarried p key hello nonce frame
      → AreFrames p key ms stream
      → accept_client p key lib (net []) conn now (some hello) s ≡ (u, ws, some name)
      → length ms < fuel
      → handle_client p key lib net conn now between fuel (frame ++ stream) s
        ≡ left p key lib net conn now between name (
            some (
              handle_all p key
                (on_message p key lib net conn now between name)
                (is_done p key lib net conn now between)
                ms
                (u, ws)))
  unfolding handle_client
  handle_client-frames correct fuel hello ms nonce frame stream s u ws name c fs a h =
      let loop =
        read_loop-frames p correct key (on_message p key lib net conn now between name)
          (is_done p key lib net conn now between) ms stream fuel (u, ws) fs h in
      rw
        (read_encrypted_message-write_message p correct key nonce hello stream c.sendable
          c.nonce_sized c.fits c.written)
        (unfold from_first serve in rw a (rw loop refl))

  -- A connection whose first message proves no name, or which brings none, leaves the server as it
  -- was, but for the closed connection, whatever it brings behind that message.
  pub handle_client_unproved :
      (correct : IsCorrect p) (fuel : ℕ) (stream : Bytes) (s : Server)
      → ((msg : Message) (auth : AuthPayload) (rest : Bytes)
          → read_encrypted_message p key stream ≡ ok (msg, rest)
          → ¬ IsProof p key lib msg auth)
      → (ws : List Write) × (handle_client p key lib net conn now between fuel stream s
          ≡ some (close conn s, ws))
  unfolding handle_client from_first serve
  handle_client_unproved correct fuel stream s unproved =
      go (read_encrypted_message p key stream) refl
    where
      refused :
          (rest : Bytes) (a : Accepted)
          → a.2 ≡ none
          → a.0 ≡ close conn s
          → (ws : List Write) × (serve p key lib net conn now between fuel rest a
              ≡ some (close conn s, ws))
      refused rest (t, ws, none) e f = (ws, ap (λ x. some (x, ws)) f)
      refused rest (t, ws, some name) e f = cc

      go :
          (r : Result Error (Message × Bytes))
          → read_encrypted_message p key stream ≡ r
          → (ws : List Write) × (from_first p key lib net conn now between fuel s r
              ≡ some (close conn s, ws))
      go (err e) f =
          let (g, k) =
            accept_client_refuses p correct key lib (net []) conn now s none (λ msg auth b. cc) in
          refused [] _ g k
      go (ok (msg, rest)) f =
          let (g, k) =
            accept_client_refuses p correct key lib (net []) conn now s (some msg) (λ m auth b.
              unproved m auth rest (f ∙ ap (λ x. ok (x, rest)) (some-injective _ _ b))) in
          refused rest _ g k
