-- ===== src/Proto/Message/Name.antt =====
-- pkg/proto/message.go: MsgType.String.
use clienthub.Prelude.{String, Option, none, some, [], ◌∷◌, Map, lookup, nat_eq}
use clienthub.Proto.Message.{
  MsgType, msg_auth, msg_auth_ok, msg_auth_fail, msg_register, msg_open_tunnel, msg_tunnel_ready,
  msg_data, msg_data_udp, msg_close, msg_heartbeat, msg_list_clients, msg_list_tunnels,
  msg_kick_client, msg_response, msg_tunnel_fail, msg_add_forward, msg_remove_forward,
  msg_list_forwards, msg_push_config, msg_add_expose, msg_remove_expose, msg_list_expose,
  msg_speed_test, msg_speed_result,
}
use clienthub.Library.{Library, Arg}

abbrev pub names : Map MsgType String
names =
    (msg_auth, "AUTH")
    ∷ (msg_auth_ok, "AUTH_OK")
    ∷ (msg_auth_fail, "AUTH_FAIL")
    ∷ (msg_register, "REGISTER")
    ∷ (msg_open_tunnel, "OPEN_TUNNEL")
    ∷ (msg_tunnel_ready, "TUNNEL_READY")
    ∷ (msg_data, "DATA")
    ∷ (msg_data_udp, "DATA_UDP")
    ∷ (msg_close, "CLOSE")
    ∷ (msg_heartbeat, "HEARTBEAT")
    ∷ (msg_list_clients, "LIST_CLIENTS")
    ∷ (msg_list_tunnels, "LIST_TUNNELS")
    ∷ (msg_kick_client, "KICK_CLIENT")
    ∷ (msg_response, "RESPONSE")
    ∷ (msg_tunnel_fail, "TUNNEL_FAIL")
    ∷ (msg_add_forward, "ADD_FORWARD")
    ∷ (msg_remove_forward, "REMOVE_FORWARD")
    ∷ (msg_list_forwards, "LIST_FORWARDS")
    ∷ (msg_push_config, "PUSH_CONFIG")
    ∷ (msg_add_expose, "ADD_EXPOSE")
    ∷ (msg_remove_expose, "REMOVE_EXPOSE")
    ∷ (msg_list_expose, "LIST_EXPOSE")
    ∷ (msg_speed_test, "SPEED_TEST")
    ∷ (msg_speed_result, "SPEED_RESULT")
    ∷ []

named : Library → MsgType → Option String → String
named lib m none = lib.sprintf "UNKNOWN(0x%02x)" (Arg.number m ∷ [])
named lib m (some name) = name

-- The method String.
unfoldable pub string : Library → MsgType → String
unfolding named
string lib m = named lib m (lookup m names)
