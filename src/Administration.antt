-- ===== src/Administration.antt =====
-- pkg/manager/manager.go and pkg/server/server.go together: SendCommand at one end of a connection,
-- handleAdmin and handleAdminMessage at the other.
pub mod Outcome
use clienthub.Prelude.{
  ℕ, ◌≡◌, ◌≢◌, refl, sym, ap, ◌∙◌, String, Bool, true, false, not, Option, none, some, List, [],
  ◌∷◌, ◌==◌, ==_iff, ==_refl, nat_eq, string_eq, if◌then◌else◌, Result, ok, err, arith, Bool-cases,
  inl, inr,
}
use clienthub.Proto.Message.{
  Bytes, Message, MsgType, new_message, msg_auth, msg_auth_ok, msg_auth_fail, msg_response,
  msg_add_expose, msg_kick_client,
}
use clienthub.Proto.Payload.{
  AuthPayload, ResponsePayload, KickPayload, AddExposePayload, Codec, IsFaithful, encode_json,
  decode_json,
}
use clienthub.Crypto.{Primitives, IsCorrect, compute_auth_token, verify_auth_token}
use clienthub.Crypto.Laws.{verify_auth_token_iff}
use clienthub.Registry.{get_client}
use clienthub.Relay.{Write}
use clienthub.Store.{SaveError, Return, returns, panics}
use clienthub.Store.Lookup.{find_expose}
use clienthub.Server.State.{Server, Library, Arg, send}
use clienthub.Server.Pending.{Meanwhile}
use clienthub.Server.Admin.{Handled, handle_admin_add_expose, handle_kick}
use clienthub.Server.Admin.Dispatch.{Surroundings, handle_admin_message, accept_admin}
use clienthub.Server.Admin.Dispatch.Acceptance.{accept_admin-proof, accept_admin-wrong_token}
use clienthub.Manager.{
  Manager, Line, Event, Event.opened, Event.closed, Event.wrote, credentials, hello, send_command,
}
use clienthub.Manager.Exchange.{
  IsWelcome, IsAnswered, send_command_answered, send_command_unwelcome,
}
use clienthub.Manager.Commands.{add_expose, kick_client, expose_payload}

-- The first message that is written to the connection.
abbrev pub written_to : ℕ → List Write → Option Message
written_to conn [] = none
written_to conn ((c, msg) ∷ ws) = if c == conn then some msg else written_to conn ws

-- What is read of it, or that nothing comes.
abbrev pub arrives : Option Message → Result String Message
arrives none = err "EOF"
arrives (some msg) = ok msg

abbrev pub writes_of : Return Handled → List Write
writes_of panics = []
writes_of (returns h) = h.writes

module _ (p : Primitives) (correct : IsCorrect p) (key : Bytes) (lib : Library) (w : Surroundings)
    (wait : Meanwhile) (conn : ℕ) (s : Server) (m : Manager) where
  -- After the token was accepted, the server handles the command.
  commanded_with : Message → List Write × Bool → Option Message
  commanded_with msg (ws, false) = none
  commanded_with msg (ws, true) =
      written_to conn (writes_of (handle_admin_message lib w wait conn msg s))

  reads : List Message → Option Message
  unfolding commanded_with
  reads (auth ∷ []) = written_to conn (accept_admin p key lib w.net conn (some auth)).0
  reads (auth ∷ (msg ∷ [])) = commanded_with msg (accept_admin p key lib w.net conn (some auth))
  reads ms = none

  -- A connection to this server, on which every write of the administrator succeeds.
  unfoldable pub served : Line
  unfolding reads
  served = record { dial = none; write = λ msg. none; read = λ ms. arrives (reads ms) }

  -- The administrator's key is the server's, its token is decoded as it was, and the acceptance can
  -- be written.
  pub record IsTrusted : Type 0 where
    pub same_key : key ≡ m.key
    pub unmarshals :
        decode_json lib.auth (encode_json lib.auth (credentials p m)) ≡ some (credentials p m)
    pub accepts : w.net (conn, new_message msg_auth_ok 0 []) ≡ none

  accept_admin-hello :
      IsTrusted
      → accept_admin p key lib w.net conn (some (hello p lib m))
        ≡ ((conn, new_message msg_auth_ok 0 []) ∷ [], true)
  accept_admin-hello h =
      accept_admin-proof p correct key lib w.net conn (hello p lib m) (credentials p m)
        (record { is_auth = refl; readable = h.unmarshals; token = rw h.same_key refl })
      ∙ rw h.accepts refl

  served-IsWelcome : IsTrusted → IsWelcome p lib served m
  unfolding served
  served-IsWelcome h = record {
    dialed = refl;
    written = refl;
    resp = new_message msg_auth_ok 0 [];
    answer = rw (accept_admin-hello h) (rw (==_refl conn) refl);
    accepted = refl;
  }

  -- Where the administrator has the server's key, a command that the server answers returns what
  -- the server wrote, and the connection carries the token and the command and is closed.
  pub send_command-handle_admin_message :
      (msg_type : MsgType) (payload : Bytes) (h : Handled) (reply : Message) (r : ResponsePayload)
      → let msg = new_message msg_type 0 payload in
        IsTrusted
        → handle_admin_message lib w wait conn msg s ≡ returns h
        → written_to conn h.writes ≡ some reply
        → reply.type ≡ msg_response
        → decode_json lib.response reply.payload ≡ some r
        → send_command p lib served msg_type payload m
          ≡ (ok r, opened ∷ wrote (hello p lib m) ∷ wrote msg ∷ closed ∷ [])
  unfolding served commanded_with
  send_command-handle_admin_message msg_type payload h reply r t e f g d =
      send_command_answered p lib served m msg_type payload r (record {
        welcome = served-IsWelcome t;
        written = refl;
        resp = reply;
        answer = rw (accept_admin-hello t) (rw e (rw f refl));
        is_response = g;
        content = d;
      })

  -- Where the two keys give the manager different tokens, the token is decoded as it was and the
  -- refusal can be written, no command is written, and the connection is closed.
  pub send_command_refused :
      (msg_type : MsgType) (payload : Bytes)
      → compute_auth_token p "manager" m.key ≢ compute_auth_token p "manager" key
      → decode_json lib.auth (encode_json lib.auth (credentials p m)) ≡ some (credentials p m)
      → w.net (conn, new_message msg_auth_fail 0 []) ≡ none
      → send_command p lib served msg_type payload m ≡ (
        err (lib.sprintf "authentication failed" []),
        opened ∷ wrote (hello p lib m) ∷ closed ∷ [],
      )
  unfolding served
  send_command_refused msg_type payload ne d n =
      send_command_unwelcome p lib served m msg_type payload (new_message msg_auth_fail 0 []) refl
        refl (rw (refused, n) (rw (==_refl conn) refl)) (λ e. cc)
    where
      bad : verify_auth_token p "manager" (compute_auth_token p "manager" m.key) key ≡ false
      bad = ground (
        arith,
        verify_auth_token_iff p correct "manager" (compute_auth_token p "manager" m.key) key,
        ne,
      )

      refused :
          accept_admin p key lib w.net conn (some (hello p lib m))
          ≡ (send w.net (conn, new_message msg_auth_fail 0 []), false)
      refused =
          accept_admin-wrong_token p correct key lib w.net conn (hello p lib m) (credentials p m)
            refl d bad
