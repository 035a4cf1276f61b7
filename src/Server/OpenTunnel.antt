-- ===== src/Server/OpenTunnel.antt =====
-- pkg/server/server.go: handleRegister and handleOpenTunnel.
pub mod Outcome
pub mod Sections
use clienthub.Prelude.{
  ℕ, ◌≡◌, String, Bool, true, false, Option, none, some, List, [], ◌∷◌, ◌++◌, ◌==◌, string_eq,
  if◌then◌else◌, any,
}
use clienthub.Proto.Message.{Bytes, Message, new_message, msg_tunnel_ready, msg_tunnel_fail}
use clienthub.Proto.Payload.{
  RegisterPayload, OpenTunnelPayload, TunnelReadyPayload, TunnelFailPayload, ServiceInfo,
  encode_json, decode_json,
}
use clienthub.Registry.{ClientSession, get_client, allocate_session, remove_tunnel, update_services}
use clienthub.Relay.{Write}
use clienthub.Server.State.{Server, Library, Net, Arg, send, unless_failed}

register_services : String → Option RegisterPayload → Server → Server
register_services client_name none s = s
register_services client_name (some reg) s = record s {
  registry = update_services client_name reg.services s.registry;
}

unfoldable pub handle_register : Library → String → Message → Server → Server
unfolding register_services
handle_register lib client_name msg s =
    register_services client_name (decode_json lib.register msg.payload) s

abbrev pub tunnel_fail : Library → ℕ → ℕ → String → Write
tunnel_fail lib conn req_id reason = (
  conn,
  new_message msg_tunnel_fail req_id (encode_json lib.tunnel_fail (record { reason = reason })),
)

-- The message that announces a tunnel; its own session number is the caller's choice.
abbrev pub tunnel_ready : Library → ℕ → ℕ → ℕ → String → OpenTunnelPayload → Write
tunnel_ready lib conn session_id tunnel_id source req = (
  conn,
  new_message msg_tunnel_ready session_id (
      encode_json lib.tunnel_ready (record {
        session_id = tunnel_id;
        source_client = source;
        target_service = req.target_service;
        protocol = req.protocol;
      })),
)

-- for _, svc := range target.Services { if svc.Name == … }
abbrev pub has_service : String → List ServiceInfo → Bool
has_service name services = any (λ svc. svc.name == name) services

notified :
    Library
    → Net
    → ℕ
    → String
    → ℕ
    → ℕ
    → OpenTunnelPayload
    → Server
    → Option String
    → Server × List Write
notified lib net conn client_name req_id session_id req s none =
    (s, send net (tunnel_ready lib conn req_id session_id client_name req))
notified lib net conn client_name req_id session_id req s (some e) = (
  record s { registry = remove_tunnel session_id s.registry },
  send net (tunnel_fail lib conn req_id "target unreachable"),
)

connect :
    Library
    → Net
    → ℕ
    → ℕ
    → String
    → ℕ
    → OpenTunnelPayload
    → ClientSession
    → Server
    → Server × List Write
unfolding notified
connect lib net now conn client_name req_id req target s =
    let (session_id, r) =
      allocate_session client_name req.target_client req.target_service req.protocol now
        s.registry in
    let ready = tunnel_ready lib target.conn session_id session_id client_name req in
    let (s', ws) =
      notified lib net conn client_name req_id session_id req (record s { registry = r })
        (net ready) in
    (s', unless_failed (net ready) ready ++ ws)

to_target :
    Library
    → Net
    → ℕ
    → ℕ
    → String
    → ℕ
    → OpenTunnelPayload
    → Server
    → Option ClientSession
    → Server × List Write
unfolding connect
to_target lib net now conn client_name req_id req s none = (
  s,
  send net (
      tunnel_fail lib conn req_id
        (lib.sprintf "client %q not found" (Arg.text req.target_client ∷ []))),
)
to_target lib net now conn client_name req_id req s (some target) =
    if has_service req.target_service target.services
    then connect lib net now conn client_name req_id req target s
    else (
      s,
      send net (
          tunnel_fail lib conn req_id (
            lib.sprintf "service %q not found on client %q"
              (Arg.text req.target_service ∷ Arg.text req.target_client ∷ []))),
    )

on_request :
    Library → Net → ℕ → ℕ → String → ℕ → Server → Option OpenTunnelPayload → Server × List Write
unfolding to_target
on_request lib net now conn client_name req_id s none = (s, [])
on_request lib net now conn client_name req_id s (some req) =
    to_target lib net now conn client_name req_id req s (get_client req.target_client s.registry)

-- `conn` is the connection of the client that asks, and `now` the time.
unfoldable pub handle_open_tunnel :
    Library → Net → ℕ → ℕ → String → Message → Server → Server × List Write
unfolding on_request
handle_open_tunnel lib net now conn client_name msg s =
    on_request lib net now conn client_name msg.session_id s
      (decode_json lib.open_tunnel msg.payload)
