-- ===== src/Client/Run.antt =====
-- pkg/client/client.go: Run and runOnce. What happens to one connection is an `Attempt`; what other
-- goroutines do between two messages of the server is a function on the state.
pub mod Waits
use clienthub.Prelude.{
  ℕ, ◌+◌, String, Bool, true, false, Option, none, some, List, [], ◌∷◌, ◌++◌, if◌then◌else◌,
}
use clienthub.Proto.Message.{Bytes, Message}
use clienthub.Crypto.{Primitives}
use clienthub.Tunnel.Stream.{read_loop}
use clienthub.Client.State.{Client, Library, Net, RegisterError, register}
use clienthub.Client.Forwards.{Listen}
use clienthub.Client.Session.{AuthError, authenticate, start_forwards, handle_message}
use clienthub.Client.Reconnect.{drain, next_backoff}

pub data RunError : Type 0 where
  unreachable : String → RunError
  unauthenticated : AuthError → RunError
  unregistered : RegisterError → RunError
  -- read from server
  unread : RunError

-- net.DialTimeout, the writes, the answer to the token, the bytes that follow it, whether the context
-- is done before a round of the loop, after the attempt, and during the waiting time; and the local
-- connections and listeners.
pub record Attempt : Type 0 where
  pub dial : Option String
  pub net : Net
  pub answer : Message → Option Message
  pub stream : Bytes
  pub cancelled : ℕ → Bool
  pub done : Bool
  pub interrupted : Bool
  pub listen : Listen
  pub writes : ℕ → Bytes → Bool
  pub between : Client → Client

-- The client, the messages to the server, and the number of rounds.
abbrev pub Round : Type 0
Round = Client × List Message × ℕ

abbrev pub Ended : Type 0
Ended = Client × List Message × Option RunError

-- defer: c.conn = nil; c.writer = nil
abbrev pub disconnected : Client → Client
disconnected c = record c { connected = false }

module _ (p : Primitives) (key : Bytes) (lib : Library) (a : Attempt) where
  abbrev pub on_message : Message → Round → Round
  on_message msg (c, ms, n) =
      let e = handle_message lib a.net a.listen a.writes msg (a.between c) in
      (e.client, ms ++ e.sent, n + 1)

  abbrev pub is_done : Round → Bool
  is_done (c, ms, n) = a.cancelled n

  -- nil if the context is done, else the error of the read
  abbrev pub loop_ended : Option Round → Option Ended
  loop_ended none = none
  loop_ended (some (c, ms, n)) =
      some (disconnected (a.between c), ms, if a.cancelled n then none else some unread)

  registered : ℕ → Client → List Message → List Message × Option RegisterError → Option Ended
  registered fuel c ms (ws, some e) = some (disconnected c, ms ++ ws, some (unregistered e))
  registered fuel c ms (ws, none) = loop_ended (
      read_loop p key on_message is_done fuel a.stream (start_forwards lib a.listen c, ms ++ ws, 0))

  authenticated : ℕ → Client → List Message × Option AuthError → Option Ended
  unfolding registered
  authenticated fuel c (ms, some e) = some (disconnected c, ms, some (unauthenticated e))
  authenticated fuel c (ms, none) = registered fuel c ms (register lib a.net c)

  dialed : ℕ → Client → Option String → Option Ended
  unfolding authenticated
  dialed fuel c (some e) = some (c, [], some (unreachable e))
  dialed fuel c none =
      let c' = record c { connected = true } in
      authenticated fuel c' (authenticate p key lib a.net a.answer c')

  -- None if the fuel did not last.
  unfoldable pub run_once : ℕ → Client → Option Ended
  unfolding dialed
  run_once fuel c = dialed fuel c a.dial

-- The client at the end, and the waiting times between the attempts.
abbrev pub Ran : Type 0
Ran = Client × List ℕ

abbrev pub waited : ℕ → Option Ran → Option Ran
waited backoff none = none
waited backoff (some (c, waits)) = some (c, backoff ∷ waits)

module _ (p : Primitives) (key : Bytes) (lib : Library) where
  -- What follows an attempt: the return, or the next attempt after a waiting time.
  abbrev pub again : Attempt → ℕ → (ℕ → Client → Option Ran) → Option Ended → Option Ran
  again a backoff rest none = none
  again a backoff rest (some (c, ms, none)) = some (c, [])
  again a backoff rest (some (c, ms, some e)) =
      let next = waited backoff (rest (next_backoff backoff) (drain c)) in
      if a.done then some (c, []) else if a.interrupted then some (drain c, []) else next

  -- Run, over the attempts that it comes to; the fuel is that of each attempt.
  unfoldable pub run_from : ℕ → List Attempt → ℕ → Client → Option Ran
  run_from fuel [] backoff c = some (c, [])
  run_from fuel (a ∷ attempts) backoff c =
      again a backoff (run_from fuel attempts) (run_once p key lib a fuel c)

  unfoldable pub run : ℕ → List Attempt → Client → Option Ran
  unfolding run_from
  run fuel attempts c = run_from fuel attempts 2 c
