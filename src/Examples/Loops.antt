-- ===== src/Examples/Loops.antt =====
-- Whole connections.
use clienthub.Prelude.{
  ℕ, ◌%◌, ◌^◌, ◌<◌, ◌≡◌, refl, ap, ◌∙◌, false, true, none, some, List, ok, [], ◌∷◌, ◌++◌, length,
  arith,
}
use clienthub.Proto.Message.{
  Bytes, Message, new_message, msg_heartbeat, msg_remove_expose, put_u32, encode,
}
use clienthub.Store.{written}
use clienthub.Crypto.{encrypt, compute_auth_token}
use clienthub.Tunnel.{write_message, read_encrypted_message}
use clienthub.Tunnel.Stream.{IsCarried, AreFrames.no_frames, AreFrames.one_more, handle_all}
use clienthub.Server.State.{Server, Net, new_server}
use clienthub.Server.Session.{Accepted, accept_client, auth_ok, close}
use clienthub.Relay.{Write}
use clienthub.Proto.Payload.{AuthPayload}
use clienthub.Tunnel.RoundTrip.{read_encrypted_message-write_message}
use clienthub.Server.Session.Authentication.{IsProof, accept_client_complete}
use clienthub.Server.Session.Loop.{Round, handle_client, left, on_message, is_done}
use clienthub.Server.Session.Loop.Ending.{IsGone, handle_client_ends}
use clienthub.Server.Session.Loop.Whole.{
  handle_client-returns, handle_client-frames, handle_client_unproved,
}
use clienthub.Server.Pending.{Meanwhile}
use clienthub.Server.Admin.Dispatch.{Surroundings}
use clienthub.Server.Admin.Loop.{World}
use clienthub.Server.Steps.Invariant.{IsOrderly, new_server-IsOrderly}
use clienthub.Examples.Rules.{store-IsSound}
use clienthub.Server.Steps.{Reaches, Reaches.here}
use clienthub.Client.State.{Client}
use clienthub.Client.Run.{Attempt, run}
use clienthub.Client.Run.Waits.{waits_from, run-waits}
use clienthub.Examples.World.{
  primitives, primitives-IsCorrect, key, nonce, lib, store, good_net, first, alice_auth, client,
}

abbrev always : List Write → Net
always ws = good_net

abbrev idle : Server → Server
idle s = s

abbrev start : Server
start = new_server store

abbrev sealed : Message → Bytes
sealed msg = nonce ++ primitives.seal key nonce (encode msg)

abbrev frame : Message → Bytes
frame msg = put_u32 (length (sealed msg) % 2 ^ 32) ++ sealed msg

abbrev heartbeat : Message
heartbeat = new_message msg_heartbeat 0 []

-- The token of alice and a heartbeat.
abbrev stream : Bytes
stream = frame first ++ (frame heartbeat ++ [])

stream-short : length stream < 500
unfolding encode
stream-short = omega arith

handle_client-returns_example :
    (t : Round) × (handle_client primitives key lib always 8 0 idle 500 stream start ≡ some t)
handle_client-returns_example =
    handle_client-returns primitives key lib always 8 0 idle 500 stream start stream-short

first-IsCarried : IsCarried primitives key first nonce (frame first)
unfolding write_message encrypt
first-IsCarried = record {
  sendable = record { current = refl; session_fits = omega arith };
  nonce_sized = refl;
  fits = omega arith;
  written = refl;
}

heartbeat-IsCarried : IsCarried primitives key heartbeat nonce (frame heartbeat)
unfolding write_message encrypt
heartbeat-IsCarried = record {
  sendable = record { current = refl; session_fits = omega arith };
  nonce_sized = refl;
  fits = omega arith;
  written = refl;
}

-- Alice is accepted.
abbrev accepted : Accepted
accepted = accept_client primitives key lib good_net 8 0 (some first) start

accepted-alice : accepted ≡ (accepted.0, auth_ok 8 ∷ [], some "alice")
unfolding compute_auth_token
accepted-alice =
    let (name, ws, there) =
      accept_client_complete primitives primitives-IsCorrect key lib good_net 8 0 start first
        alice_auth (record { is_auth = refl; readable = refl; token = refl }) refl in
    ap (λ n. (accepted.0, accepted.1, n)) name ∙ ap (λ w. (accepted.0, w, some "alice")) ws

handle_client-frames_example :
    handle_client primitives key lib always 8 0 idle 2 stream start
    ≡ left primitives key lib always 8 0 idle "alice" (
        some (
          handle_all primitives key
            (on_message primitives key lib always 8 0 idle "alice")
            (is_done primitives key lib always 8 0 idle)
            (heartbeat ∷ [])
            (accepted.0, auth_ok 8 ∷ [])))
handle_client-frames_example =
    handle_client-frames primitives key lib always 8 0 idle primitives-IsCorrect 2 first
      (heartbeat ∷ []) nonce (frame first) (frame heartbeat ++ []) start accepted.0 (auth_ok 8 ∷ [])
      "alice" first-IsCarried
      (one_more heartbeat [] nonce (frame heartbeat) [] heartbeat-IsCarried no_frames)
      accepted-alice (omega arith)

first-read : read_encrypted_message primitives key stream ≡ ok (first, frame heartbeat ++ [])
first-read =
    let c = first-IsCarried in
    read_encrypted_message-write_message primitives primitives-IsCorrect key nonce first
      (frame heartbeat ++ []) c.sendable c.nonce_sized c.fits c.written

handle_client_ends_example :
    (t : Round) × (handle_client primitives key lib always 8 0 idle 500 stream start ≡ some t)
    × IsGone "alice" t.0
    × IsOrderly t.0
handle_client_ends_example =
    handle_client_ends primitives key lib always 8 0 idle lib.clients (λ u. here) 500 stream
      (frame heartbeat ++ []) first start accepted.0 (auth_ok 8 ∷ []) "alice"
      (new_server-IsOrderly store store-IsSound)
      (record { is_open = refl; unused = λ name a e. cc }) stream-short first-read accepted-alice

-- A server that cannot be reached.
abbrev lost : Attempt
lost = record {
  dial = some "connection refused";
  net = λ m. none;
  answer = λ m. none;
  stream = [];
  cancelled = λ n. false;
  done = false;
  interrupted = false;
  listen = λ addr. none;
  writes = λ conn bytes. true;
  between = λ c. c;
}

run-waits_example :
    (d : Client) × (k : ℕ) × (run primitives key lib 1 (lost ∷ lost ∷ lost ∷ []) client
      ≡ some (d, waits_from 0 k))
run-waits_example =
    run-waits primitives key lib 1 (lost ∷ lost ∷ lost ∷ []) client
      (omega arith, (omega arith, (omega arith, tt)))

abbrev nothing : Meanwhile
nothing t = (t, true)

abbrev quiet : Surroundings
quiet = record { net = good_net; disk = written; meanwhile = λ name. nothing; probing = [] }

abbrev unexpose : Message
unexpose = new_message msg_remove_expose 0 (7 ∷ [])

abbrev world : World
world = record { net = good_net; between = idle; around = λ msg t. quiet; wait = λ msg t. nothing }

-- A token and a command that removes a rule.
abbrev admin_stream : Bytes
admin_stream = frame first ++ (frame unexpose ++ [])

-- The token comes too late.
late-unproved :
    (msg : Message) (auth : AuthPayload) (rest : Bytes)
    → read_encrypted_message primitives key (frame heartbeat ++ frame first) ≡ ok (msg, rest)
    → ¬ IsProof primitives key lib msg auth
late-unproved msg auth rest e h =
    let c = heartbeat-IsCarried in
    let read =
      read_encrypted_message-write_message primitives primitives-IsCorrect key nonce heartbeat
        (frame first) c.sendable c.nonce_sized c.fits c.written in
    cc (e, read, h.is_auth)

handle_client_unproved_example :
    (ws : List Write) × (handle_client primitives key lib always 8 0 idle 500
        (frame heartbeat ++ frame first)
        start
      ≡ some (close 8 start, ws))
handle_client_unproved_example =
    handle_client_unproved primitives key lib always 8 0 idle primitives-IsCorrect 500
      (frame heartbeat ++ frame first) start late-unproved
