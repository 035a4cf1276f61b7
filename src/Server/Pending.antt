-- ===== src/Server/Pending.antt =====
-- pkg/server/server.go: forwardToClientAndWait and handleClientResponse. What other goroutines do
-- between the write and the wake-up is a function on the state, which the caller passes in.
pub mod Answer
pub mod Frame
pub mod Parts
use clienthub.Prelude.{
  ℕ, ◌+◌, ◌%◌, ◌^◌, ◌≡◌, String, Bool, true, false, Option, none, some, List, [], ◌∷◌, Map, lookup,
  insert, delete, ◌==◌, nat_eq, Result, ok, err,
}
use clienthub.Proto.Message.{Bytes, Message, MsgType, new_message}
use clienthub.Registry.{ClientSession, get_client}
use clienthub.Relay.{Write}
use clienthub.Server.State.{Server, Library, Net, Arg, unless_failed}

-- select { case ch <- msg: default: } on a channel of capacity 1.
abbrev offer : Message → Option (Option Message) → Option Message
offer msg (some (some held)) = some held
offer msg _ = some msg

answer : Message → Option ℕ → Server → Server
answer msg none s = s
answer msg (some ch) s = record s {
  pending_reqs = delete msg.session_id s.pending_reqs;
  channels = insert ch (offer msg (lookup ch s.channels)) s.channels;
}

unfoldable pub handle_client_response : Message → Server → Server
unfolding answer
handle_client_response msg s = answer msg (lookup msg.session_id s.pending_reqs) s

-- Everything that happens while a goroutine waits: the state when it wakes up, and whether its
-- select then takes the channel (if there is a message) or the timer.
abbrev pub Meanwhile : Type 0
Meanwhile = Server → Server × Bool

-- defer delete(s.pendingReqs, reqID)
abbrev pub forget : ℕ → Server → Server
forget req_id s = record s { pending_reqs = delete req_id s.pending_reqs }

abbrev pub received : Option (Option Message) → Bool → Result String Message
received (some (some resp)) true = ok resp
received _ _ = err "client response timeout"

wait : ℕ → ℕ → Meanwhile → Server → Result String Message × Server
wait req_id ch meanwhile s =
    let (s', takes) = meanwhile s in
    (
      received (lookup ch s'.channels) takes,
      forget req_id (record s' { channels = delete ch s'.channels }),
    )

after_write : Library → ℕ → ℕ → Meanwhile → Server → Option String → Result String Message × Server
unfolding wait
after_write lib req_id ch meanwhile s (some e) =
    (err (lib.sprintf "send to client: %w" (Arg.text e ∷ [])), forget req_id s)
after_write lib req_id ch meanwhile s none = wait req_id ch meanwhile s

-- atomic.AddUint32(&s.nextReqID, 1)
abbrev pub next_id : Server → ℕ
next_id s = (s.next_req_id + 1) % 2 ^ 32

-- The request is filed with a new channel.
abbrev pub filed : Server → Server
filed s = record s {
  next_req_id = next_id s;
  next_channel = s.next_channel + 1;
  pending_reqs = insert (next_id s) s.next_channel s.pending_reqs;
  channels = insert s.next_channel none s.channels;
}

ask :
    Library
    → Net
    → Meanwhile
    → String
    → MsgType
    → Bytes
    → Server
    → Option ClientSession
    → (Result String Message × Server) × List Write
unfolding after_write
ask lib net meanwhile client_name msg_type payload s none =
    ((err (lib.sprintf "client %q not found" (Arg.text client_name ∷ [])), s), [])
ask lib net meanwhile client_name msg_type payload s (some client) =
    let w : Write = (client.conn, new_message msg_type (next_id s) payload) in
    (
      after_write lib (next_id s) s.next_channel meanwhile (filed s) (net w),
      unless_failed (net w) w,
    )

-- The response or the error, the state, and the write to the client.
unfoldable pub forward_to_client_and_wait :
    Library
    → Net
    → Meanwhile
    → String
    → MsgType
    → Bytes
    → Server
    → (Result String Message × Server) × List Write
unfolding ask
forward_to_client_and_wait lib net meanwhile client_name msg_type payload s =
    ask lib net meanwhile client_name msg_type payload s (get_client client_name s.registry)
