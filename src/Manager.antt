-- ===== src/Manager.antt =====
-- pkg/manager/manager.go: the connection of an administrator, and the exchange of one command. What
-- the network does with a connection is an argument.

pub mod Commands
pub mod Listing
pub mod Exchange
use clienthub.Prelude.{
  ℕ, ◌≡◌, String, Bool, true, false, not, Option, none, some, List, [], ◌∷◌, ◌++◌, ◌==◌, nat_eq,
  if◌then◌else◌, Result, ok, err,
}
use clienthub.Proto.Message.{
  Bytes, Message, MsgType, new_message, msg_auth, msg_auth_ok, msg_response,
}
use clienthub.Proto.Message.Name.{string}
use clienthub.Proto.Payload.{AuthPayload, ResponsePayload, encode_json, decode_json}
use clienthub.Crypto.{Primitives, fixed_salt, new_cipher_from_password, compute_auth_token}
pub use clienthub.Library.{Library, Arg}

-- A Cipher is its key.
pub record Manager : Type 0 where
  pub addr : String
  pub key : Bytes

unfoldable pub new : Primitives → String → String → Manager
new p addr secret = record { addr = addr; key = new_cipher_from_password p secret fixed_salt }

-- net.DialTimeout, ConnWriter.WriteMessage and ReadEncryptedMessage on one connection. What is read
-- depends on the messages that were written before.
pub record Line : Type 0 where
  pub dial : Option String
  pub write : Message → Option String
  pub read : List Message → Result String Message

-- What happens to the connection, in its order.
pub data Event : Type 0 where
  opened closed : Event
  wrote : Message → Event

abbrev pub credentials : Primitives → Manager → AuthPayload
credentials p m = record { client_name = "manager"; token = compute_auth_token p "manager" m.key }

abbrev pub hello : Primitives → Library → Manager → Message
hello p lib m = new_message msg_auth 0 (encode_json lib.auth (credentials p m))

-- No error, or the connection was closed again.
abbrev pub Connected : Type 0
Connected = Option String × List Event

welcomed : Library → Message → Result String Message → Connected
welcomed lib msg (err e) = (
  some (lib.sprintf "read auth response: %w" (Arg.text e ∷ [])),
  opened ∷ wrote msg ∷ closed ∷ [],
)
welcomed lib msg (ok resp) =
    if not (resp.type == msg_auth_ok)
    then (some (lib.sprintf "authentication failed" []), opened ∷ wrote msg ∷ closed ∷ [])
    else (none, opened ∷ wrote msg ∷ [])

authenticated : Library → Line → Message → Option String → Connected
unfolding welcomed
authenticated lib line msg (some e) =
    (some (lib.sprintf "send auth: %w" (Arg.text e ∷ [])), opened ∷ closed ∷ [])
authenticated lib line msg none = welcomed lib msg (line.read (msg ∷ []))

dialed : Primitives → Library → Line → Manager → Option String → Connected
unfolding authenticated
dialed p lib line m (some e) = (some (lib.sprintf "connect to admin: %w" (Arg.text e ∷ [])), [])
dialed p lib line m none = authenticated lib line (hello p lib m) (line.write (hello p lib m))

unfoldable pub connect : Primitives → Library → Line → Manager → Connected
unfolding dialed
connect p lib line m = dialed p lib line m line.dial

abbrev pub Answered : Type 0
Answered = Result String ResponsePayload × List Event

abbrev pub or_error : {A : Type 0} → Library → String → Bytes → Option A → Result String A
or_error lib format b none = err (lib.sprintf format (Arg.text (lib.unmarshal_error b) ∷ []))
or_error lib format b (some result) = ok result

response_of : Library → Result String Message → Result String ResponsePayload
response_of lib (err e) = err (lib.sprintf "read response: %w" (Arg.text e ∷ []))
response_of lib (ok resp) =
    if not (resp.type == msg_response)
    then err (lib.sprintf "unexpected response type: %s" (Arg.text (string lib resp.type) ∷ []))
    else or_error lib "decode response: %w" resp.payload (decode_json lib.response resp.payload)

commanded : Primitives → Library → Line → Manager → Message → List Event → Option String → Answered
unfolding response_of
commanded p lib line m msg es (some e) =
    (err (lib.sprintf "send command: %w" (Arg.text e ∷ [])), es ++ (closed ∷ []))
commanded p lib line m msg es none =
    (response_of lib (line.read (hello p lib m ∷ msg ∷ [])), es ++ (wrote msg ∷ closed ∷ []))

on_connection : Primitives → Library → Line → Manager → Message → Connected → Answered
unfolding commanded
on_connection p lib line m msg (some e, es) = (err e, es)
on_connection p lib line m msg (none, es) = commanded p lib line m msg es (line.write msg)

-- The answer or the error, and what happened to the connection.
unfoldable pub send_command : Primitives → Library → Line → MsgType → Bytes → Manager → Answered
unfolding on_connection
send_command p lib line msg_type payload m =
    on_connection p lib line m (new_message msg_type 0 payload) (connect p lib line m)
