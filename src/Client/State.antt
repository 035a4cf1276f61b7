-- ===== src/Client/State.antt =====
-- pkg/client/client.go: the Client struct and its messages to the server. A local connection is a
-- number. `closed` lists the local connections that were closed, and `stopped` the addresses whose
-- listener was cancelled.
use clienthub.Prelude.{ℕ, String, Bool, true, false, Option, none, some, List, [], ◌∷◌, map, Map}
pub use clienthub.Library.{Library, Arg, text, number}
use clienthub.Proto.Message.{Bytes, Message, new_message, msg_response, msg_register}
use clienthub.Proto.Payload.{ServiceInfo, encode_json}
use clienthub.Config.{ClientConfig, ExposeService}

pub record LocalTunnel : Type 0 where
  pub session_id : ℕ
  pub local_conn : ℕ
  pub protocol : String

pub record ActiveForward : Type 0 where
  pub listen_addr : String
  pub remote_client : String
  pub remote_service : String
  pub protocol : String

-- `connected` says that the writer is not nil. A channel of `pending` holds at most one number.
pub record Client : Type 0 where
  pub cfg : ClientConfig
  pub connected : Bool
  pub tunnels : Map ℕ LocalTunnel
  pub pending : Map ℕ ℕ
  pub channels : Map ℕ (Option ℕ)
  pub forwards : Map String ActiveForward
  pub next_req_id : ℕ
  pub next_channel : ℕ
  pub closed : List ℕ
  pub stopped : List String

abbrev pub new_client : ClientConfig → Client
new_client cfg = record {
  cfg = cfg;
  connected = false;
  tunnels = [];
  pending = [];
  channels = [];
  forwards = [];
  next_req_id = 0;
  next_channel = 0;
  closed = [];
  stopped = [];
}

-- What WriteMessage returns for a message to the server: no error, or the text of one.
abbrev pub Net : Type 0
Net = Message → Option String

abbrev pub unless_failed : Option String → Message → List Message
unless_failed none m = m ∷ []
unless_failed (some e) m = []

-- if w != nil { _ = w.WriteMessage(msg) }
abbrev pub send_if : Bool → Net → Message → List Message
send_if false net m = []
send_if true net m = unless_failed (net m) m

abbrev pub response : Library → ℕ → Bool → String → Bytes → Message
response lib session_id success message raw =
    new_message msg_response session_id
      (encode_json lib.response (record { success = success; message = message; raw = raw }))

-- sendResponse
abbrev pub send_response : Library → Net → ℕ → Bool → String → Client → List Message
send_response lib net session_id success message c =
    send_if c.connected net (response lib session_id success message [])

abbrev pub service_info : Library → ExposeService → ServiceInfo
service_info lib exp = record {
  name = exp.name;
  protocol = exp.protocol;
  port = lib.port_of exp.local_addr;
}

-- The error of registerServices.
pub data RegisterError : Type 0 where
  not_marshalled : RegisterError
  not_written : String → RegisterError

write_registration : Option String → Message → List Message × Option RegisterError
write_registration none m = (m ∷ [], none)
write_registration (some e) m = ([], some (not_written e))

registration : Net → Option Bytes → List Message × Option RegisterError
unfolding write_registration
registration net none = ([], some not_marshalled)
registration net (some payload) =
    let m = new_message msg_register 0 payload in write_registration (net m) m

register_all : Library → Net → List ExposeService → List Message × Option RegisterError
unfolding registration
register_all lib net [] = ([], none)
register_all lib net (e ∷ es) =
    registration net (lib.register.marshal (record { services = map (service_info lib) (e ∷ es) }))

-- registerServices, on a writer that is there: nothing is sent where nothing is exposed.
unfoldable pub register : Library → Net → Client → List Message × Option RegisterError
unfolding register_all
register lib net c = register_all lib net c.cfg.expose

-- The same where its error is only logged.
unfoldable pub register_services : Library → Net → Client → List Message
unfolding register
register_services lib net c = (register lib net c).0
