-- ===== src/Client/Forwards.antt =====
-- pkg/client/client.go: addForward, removeForward, listForwards and the messages that call them.
pub mod Changes
use clienthub.Prelude.{
  ℕ, ◌≡◌, String, Bool, true, false, Option, none, some, List, [], ◌∷◌, ◌++◌, map, Map, lookup,
  insert, delete, ◌==◌, string_eq, if◌then◌else◌, length, pos,
}
use clienthub.Proto.Message.{Bytes, Message, new_message, msg_response}
use clienthub.Proto.Payload.{
  AddForwardPayload, RemoveForwardPayload, ForwardInfo, SpeedResultPayload, encode_json,
  decode_json,
}
use clienthub.Config.{or_tcp}
use clienthub.Client.State.{
  Client, ActiveForward, Library, Arg, Net, send_if, response, send_response,
}

-- What net.Listen says about an address: nil, or the text of an error.
abbrev pub Listen : Type 0
Listen = String → Option String

abbrev pub new_forward : String → String → String → String → ActiveForward
new_forward listen_addr remote_client remote_service protocol = record {
  listen_addr = listen_addr;
  remote_client = remote_client;
  remote_service = remote_service;
  protocol = or_tcp protocol;
}

listened : Library → ActiveForward → Client → Option String → Client × Option String
listened lib fwd c none = (record c { forwards = insert fwd.listen_addr fwd c.forwards }, none)
listened lib fwd c (some e) =
    (c, some (lib.sprintf "listen on %s: %w" (Arg.text fwd.listen_addr ∷ Arg.text e ∷ [])))

unless_there :
    Library → Listen → ActiveForward → Client → Option ActiveForward → Client × Option String
unfolding listened
unless_there lib listen fwd c (some existing) =
    (c, some (lib.sprintf "forward already exists on %s" (Arg.text fwd.listen_addr ∷ [])))
unless_there lib listen fwd c none = listened lib fwd c (listen fwd.listen_addr)

-- The state, and the text of the error if there is one.
unfoldable pub add_forward :
    Library → Listen → String → String → String → String → Client → Client × Option String
unfolding unless_there
add_forward lib listen listen_addr remote_client remote_service protocol c =
    unless_there lib listen (new_forward listen_addr remote_client remote_service protocol) c
      (lookup listen_addr c.forwards)

remove_found : Library → String → Client → Option ActiveForward → Client × Option String
remove_found lib listen_addr c none =
    (c, some (lib.sprintf "no forward on %s" (Arg.text listen_addr ∷ [])))
remove_found lib listen_addr c (some fwd) = (
  record c { forwards = delete listen_addr c.forwards; stopped = fwd.listen_addr ∷ c.stopped },
  none,
)

unfoldable pub remove_forward : Library → String → Client → Client × Option String
unfolding remove_found
remove_forward lib listen_addr c = remove_found lib listen_addr c (lookup listen_addr c.forwards)

abbrev pub forward_info : String → ActiveForward → ForwardInfo
forward_info client_name fwd = record {
  client_name = client_name;
  listen_addr = fwd.listen_addr;
  remote_client = fwd.remote_client;
  remote_service = fwd.remote_service;
  protocol = fwd.protocol;
}

unfoldable pub list_forwards : Client → List ForwardInfo
list_forwards c = map (λ e. forward_info c.cfg.client_name e.1) c.forwards

reply : Library → Net → ℕ → String → Client × Option String → Client × List Message
reply lib net id message (c, none) = (c, send_response lib net id true message c)
reply lib net id message (c, some e) = (c, send_response lib net id false e c)

add_asked : Library → Net → Listen → ℕ → Client → Option AddForwardPayload → Client × List Message
unfolding reply
add_asked lib net listen id c none = (c, send_response lib net id false "invalid payload" c)
add_asked lib net listen id c (some req) =
    reply lib net id
      (lib.sprintf "forward %s -> %s/%s started"
        (Arg.text req.listen_addr ∷ Arg.text req.remote_client ∷ Arg.text req.remote_service ∷ []))
      (add_forward lib listen req.listen_addr req.remote_client req.remote_service req.protocol c)

unfoldable pub handle_add_forward :
    Library → Net → Listen → Message → Client → Client × List Message
unfolding add_asked
handle_add_forward lib net listen msg c =
    add_asked lib net listen msg.session_id c (decode_json lib.add_forward msg.payload)

remove_asked : Library → Net → ℕ → Client → Option RemoveForwardPayload → Client × List Message
unfolding reply
remove_asked lib net id c none = (c, send_response lib net id false "invalid payload" c)
remove_asked lib net id c (some req) =
    reply lib net id (lib.sprintf "forward on %s removed" (Arg.text req.listen_addr ∷ []))
      (remove_forward lib req.listen_addr c)

unfoldable pub handle_remove_forward : Library → Net → Message → Client → Client × List Message
unfolding remove_asked
handle_remove_forward lib net msg c =
    remove_asked lib net msg.session_id c (decode_json lib.remove_forward msg.payload)

unfoldable pub handle_list_forwards : Library → Net → Message → Client → List Message
handle_list_forwards lib net msg c =
    let forwards = list_forwards c in
    send_if c.connected net (
      response lib msg.session_id true
        (lib.sprintf "%d active forwards" (Arg.number (length forwards) ∷ []))
        (encode_json lib.forward_infos forwards))

unfoldable pub handle_speed_test : Library → Net → Message → Client → List Message
handle_speed_test lib net msg c = send_if c.connected net (
    response lib msg.session_id true "speed result" (
      encode_json lib.speed_result
        (record { recv_bytes = pos (length msg.payload); recv_duration_ms = pos 0 })))
