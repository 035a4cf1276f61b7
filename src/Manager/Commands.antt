-- ===== src/Manager/Commands.antt =====
-- pkg/manager/manager.go: the commands that change the server, each with what it prints.
use clienthub.Prelude.{
  String, not, Option, none, some, List, [], ◌∷◌, string_eq, if◌then◌else◌, ok, err,
}
use clienthub.Proto.Message.{
  msg_kick_client, msg_add_forward, msg_remove_forward, msg_add_expose, msg_remove_expose,
}
use clienthub.Proto.Payload.{AddForwardPayload, AddExposePayload, encode_json}
use clienthub.Crypto.{Primitives}
use clienthub.Config.{or_tcp}
use clienthub.Manager.{Manager, Library, Line, Event, Answered, Arg, send_command}

-- The error that is returned, the lines on the terminal, and what happened to the connections.
pub record Ran : Type 0 where
  pub error : Option String
  pub printed : List String
  pub events : List Event

abbrev pub failed : String → List Event → Ran
failed e es = record { error = some e; printed = []; events = es }

-- fmt.Println(resp.Message)
abbrev pub says : Answered → Ran
says (err e, es) = failed e es
says (ok resp, es) = record { error = none; printed = resp.message ∷ []; events = es }

-- The same after the check of resp.Success.
abbrev pub checks : Library → Answered → Ran
checks lib (err e, es) = failed e es
checks lib (ok resp, es) =
    if not resp.success
    then failed (lib.sprintf "%s" (Arg.text resp.message ∷ [])) es
    else record { error = none; printed = resp.message ∷ []; events = es }

-- if protocol == "" { protocol = "tcp" }
abbrev pub forward_payload : String → String → String → String → String → AddForwardPayload
forward_payload from_client listen_addr to_client to_service protocol = record {
  client_name = from_client;
  listen_addr = listen_addr;
  remote_client = to_client;
  remote_service = to_service;
  protocol = or_tcp protocol;
}

abbrev pub expose_payload : String → String → String → String → AddExposePayload
expose_payload client_name name local_addr protocol = record {
  client_name = client_name;
  rule = record { name = name; local_addr = local_addr; protocol = or_tcp protocol };
}

module _ (p : Primitives) (lib : Library) (line : Line) (m : Manager) where
  unfoldable pub kick_client : String → Ran
  kick_client name = says (
      send_command p lib line msg_kick_client (encode_json lib.kick (record { client_name = name }))
        m)

  unfoldable pub add_forward : String → String → String → String → String → Ran
  add_forward from_client listen_addr to_client to_service protocol = checks lib (
      send_command p lib line msg_add_forward
        (encode_json lib.add_forward
          (forward_payload from_client listen_addr to_client to_service protocol))
        m)

  unfoldable pub remove_forward : String → String → Ran
  remove_forward from_client listen_addr = checks lib (
      send_command p lib line msg_remove_forward
        (encode_json lib.remove_forward
          (record { client_name = from_client; listen_addr = listen_addr }))
        m)

  unfoldable pub add_expose : String → String → String → String → Ran
  add_expose client_name name local_addr protocol = checks lib (
      send_command p lib line msg_add_expose
        (encode_json lib.add_expose (expose_payload client_name name local_addr protocol)) m)

  unfoldable pub remove_expose : String → String → Ran
  remove_expose client_name service_name = checks lib (
      send_command p lib line msg_remove_expose
        (encode_json lib.remove_expose
          (record { client_name = client_name; service_name = service_name }))
        m)
