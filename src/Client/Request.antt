-- ===== src/Client/Request.antt =====
-- pkg/client/proxy.go: openTunnel and handleForwardConn. What other goroutines do between the write and
-- the wake-up is an argument.
pub mod Answer
use clienthub.Prelude.{
  ℕ, ◌+◌, ◌%◌, ◌^◌, ◌≡◌, String, Bool, true, false, Option, none, some, List, [], ◌∷◌, ◌++◌, Map,
  lookup, insert, delete, ◌==◌, nat_eq, if◌then◌else◌, Result, ok, err,
}
use clienthub.Proto.Message.{Bytes, Message, new_message, msg_open_tunnel}
use clienthub.Proto.Payload.{OpenTunnelPayload}
use clienthub.Client.State.{Client, LocalTunnel, ActiveForward, Library, Net, unless_failed}

pub data OpenError : Type 0 where
  marshal_failed unavailable timeout cancelled : OpenError
  unsent : String → OpenError

-- A call returns, or panics where it goes through a nil pointer.
pub data Return {ℓ} (A : Type ℓ) : Type ℓ where
  returns : A → Return A
  panics : Return A

-- What ends the wait: the channel, if it holds a number, the timer, or the context.
pub data Wake : Type 0 where
  by_channel by_timer by_context : Wake

abbrev pub Meanwhile : Type 0
Meanwhile = Client → Client × Wake

-- atomic.AddUint32(&c.nextReqID, 1)
abbrev pub next_id : Client → ℕ
next_id c = (c.next_req_id + 1) % 2 ^ 32

-- The request is filed with a new channel.
abbrev pub filed : Client → Client
filed c = record c {
  next_req_id = next_id c;
  next_channel = c.next_channel + 1;
  pending = insert (next_id c) c.next_channel c.pending;
  channels = insert c.next_channel none c.channels;
}

-- defer delete(c.pending, reqID)
abbrev pub forget : ℕ → Client → Client
forget req_id c = record c { pending = delete req_id c.pending }

abbrev pub unless_zero : ℕ → Result OpenError ℕ
unless_zero session_id = if session_id == 0 then err unavailable else ok session_id

abbrev pub woken : Wake → Option (Option ℕ) → Result OpenError ℕ
woken by_channel (some (some session_id)) = unless_zero session_id
woken by_context _ = err cancelled
woken _ _ = err timeout

abbrev pub Opened : Type 0
Opened = (Result OpenError ℕ × Client) × List Message

wait : ℕ → ℕ → Meanwhile → Client → Result OpenError ℕ × Client
wait req_id ch meanwhile c =
    let (c', wake) = meanwhile c in (woken wake (lookup ch c'.channels), forget req_id c')

written : ℕ → ℕ → Meanwhile → Message → Client → Option String → Opened
unfolding wait
written req_id ch meanwhile msg c (some e) = ((err (unsent e), forget req_id c), [])
written req_id ch meanwhile msg c none = (wait req_id ch meanwhile c, msg ∷ [])

-- c.writer.WriteMessage goes through the writer without a test for nil.
write_request : Net → Meanwhile → ℕ → ℕ → Client → Bool → Option Bytes → Return Opened
unfolding written
write_request net meanwhile req_id ch c connected none =
    returns ((err marshal_failed, forget req_id c), [])
write_request net meanwhile req_id ch c false (some payload) = panics
write_request net meanwhile req_id ch c true (some payload) =
    let msg = new_message msg_open_tunnel req_id payload in
    returns (written req_id ch meanwhile msg c (net msg))

unfoldable pub open_tunnel :
    Library → Net → Meanwhile → String → String → String → Client → Return Opened
unfolding write_request
open_tunnel lib net meanwhile target_client target_service protocol c =
    write_request net meanwhile (next_id c) c.next_channel (filed c) c.connected (
      lib.open_tunnel.marshal (record {
        target_client = target_client;
        target_service = target_service;
        protocol = protocol;
      }))

-- A failure leaves no tunnel, and the deferred call closes the connection.
bind_tunnel : ActiveForward → ℕ → Result OpenError ℕ → Client → Client
bind_tunnel fwd conn (err e) c = record c { closed = conn ∷ c.closed }
bind_tunnel fwd conn (ok session_id) c = record c {
  tunnels =
      insert session_id
        (record { session_id = session_id; local_conn = conn; protocol = fwd.protocol }) c.tunnels;
}

bind_opened : ActiveForward → ℕ → Return Opened → Return (Client × List Message)
unfolding bind_tunnel
bind_opened fwd conn panics = panics
bind_opened fwd conn (returns ((r, c), ws)) = returns (bind_tunnel fwd conn r c, ws)

-- handleForwardConn, up to the loop of forwardLocalToServer.
unfoldable pub handle_forward_conn :
    Library → Net → Meanwhile → ℕ → ActiveForward → Client → Return (Client × List Message)
unfolding bind_opened
handle_forward_conn lib net meanwhile conn fwd c =
    bind_opened fwd conn
      (open_tunnel lib net meanwhile fwd.remote_client fwd.remote_service fwd.protocol c)
