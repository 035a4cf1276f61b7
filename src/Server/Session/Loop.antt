-- ===== src/Server/Session/Loop.antt =====
-- pkg/server/server.go: handleClient from the first byte of a connection to its last. What other
-- goroutines do while a message is read is a function on the state. The server's context is not
-- cancelled meanwhile. Whether a write succeeds may depend on the writes before it.
pub mod Whole
pub mod Ending
use clienthub.Prelude.{ℕ, String, Bool, Option, none, some, List, [], ◌∷◌, ◌++◌, Result, ok, err}
use clienthub.Proto.Message.{Bytes, Message}
use clienthub.Crypto.{Primitives}
use clienthub.Relay.{Write}
use clienthub.Tunnel.{Error, read_encrypted_message}
use clienthub.Tunnel.Stream.{read_loop}
use clienthub.Server.State.{Server, Library, Net}
use clienthub.Server.Session.{Accepted, accept_client, handle_message, end_client}
use clienthub.Server.Steps.{among}

-- The state of the server and the writes of this connection's handler.
abbrev pub Round : Type 0
Round = Server × List Write

module _ (p : Primitives) (key : Bytes) (lib : Library) (net : List Write → Net) (conn now : ℕ)
    (between : Server → Server) where
  abbrev pub on_message : String → Message → Round → Round
  on_message name msg (s, ws) =
      let (t, vs) = handle_message lib (net ws) now conn name msg (between s) in (t, ws ++ vs)

  -- case <-session.done
  abbrev pub is_done : Round → Bool
  is_done (s, ws) = among conn s.closed

  abbrev pub left : String → Option Round → Option Round
  left name none = none
  left name (some (s, ws)) = some (end_client name (between s), ws)

  serve : ℕ → Bytes → Accepted → Option Round
  serve fuel rest (s, ws, none) = some (s, ws)
  serve fuel rest (s, ws, some name) =
      left name (read_loop p key (on_message name) is_done fuel rest (s, ws))

  from_first : ℕ → Server → Result Error (Message × Bytes) → Option Round
  unfolding serve
  from_first fuel s (err e) = serve fuel [] (accept_client p key lib (net []) conn now none s)
  from_first fuel s (ok (msg, rest)) =
      serve fuel rest (accept_client p key lib (net []) conn now (some msg) s)

  -- None if the fuel did not last.
  unfoldable pub handle_client : ℕ → Bytes → Server → Option Round
  unfolding from_first
  handle_client fuel stream s = from_first fuel s (read_encrypted_message p key stream)
