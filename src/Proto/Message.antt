-- ===== src/Proto/Message.antt =====
-- pkg/proto/message.go: the message types, the header, Encode, ReadMessage, ReadMessageFromBytes.
-- A byte is a number below 256; the bytes of a reader are a list, which ends where the stream ends.
pub mod RoundTrip
pub mod Reject
pub mod Name
use clienthub.Prelude.{
  ℕ, ◌+◌, ◌-◌, ◌*◌, ◌/◌, ◌%◌, ◌^◌, ◌≤◌, ◌<◌, ◌≡◌, Bool, List, [], ◌∷◌, ◌++◌, ltb, ◌==◌, nat_eq, not,
  if◌then◌else◌, length, get_or, take, drop, is_empty, Result, ok, err, ◌>>=◌,
}

abbrev pub Bytes : Type 0
Bytes = List ℕ

abbrev pub protocol_version : ℕ
protocol_version = 0x01

-- version(1) + type(1) + sessionID(4) + length(4)
abbrev pub header_size : ℕ
header_size = 1 + 1 + 4 + 4

abbrev pub max_payload_size : ℕ
max_payload_size = 2 ^ 20

-- `type MsgType byte`, with its constants.
abbrev pub MsgType : Type 0
MsgType = ℕ

abbrev pub msg_auth : MsgType
msg_auth = 0x01

abbrev pub msg_auth_ok : MsgType
msg_auth_ok = 0x02

abbrev pub msg_auth_fail : MsgType
msg_auth_fail = 0x03

abbrev pub msg_register : MsgType
msg_register = 0x04

abbrev pub msg_open_tunnel : MsgType
msg_open_tunnel = 0x05

abbrev pub msg_tunnel_ready : MsgType
msg_tunnel_ready = 0x06

abbrev pub msg_data : MsgType
msg_data = 0x07

abbrev pub msg_data_udp : MsgType
msg_data_udp = 0x08

abbrev pub msg_close : MsgType
msg_close = 0x09

abbrev pub msg_heartbeat : MsgType
msg_heartbeat = 0x0A

abbrev pub msg_list_clients : MsgType
msg_list_clients = 0x0B

abbrev pub msg_list_tunnels : MsgType
msg_list_tunnels = 0x0C

abbrev pub msg_kick_client : MsgType
msg_kick_client = 0x0D

abbrev pub msg_response : MsgType
msg_response = 0x0E

abbrev pub msg_tunnel_fail : MsgType
msg_tunnel_fail = 0x0F

abbrev pub msg_add_forward : MsgType
msg_add_forward = 0x10

abbrev pub msg_remove_forward : MsgType
msg_remove_forward = 0x11

abbrev pub msg_list_forwards : MsgType
msg_list_forwards = 0x12

abbrev pub msg_push_config : MsgType
msg_push_config = 0x13

abbrev pub msg_add_expose : MsgType
msg_add_expose = 0x14

abbrev pub msg_remove_expose : MsgType
msg_remove_expose = 0x15

abbrev pub msg_list_expose : MsgType
msg_list_expose = 0x16

abbrev pub msg_speed_test : MsgType
msg_speed_test = 0x17

abbrev pub msg_speed_result : MsgType
msg_speed_result = 0x18

pub record Message : Type 0 where
  pub version : ℕ
  pub type : MsgType
  pub session_id : ℕ
  pub payload : Bytes

abbrev pub new_message : MsgType → ℕ → Bytes → Message
new_message msg_type session_id payload = record {
  version = protocol_version;
  type = msg_type;
  session_id = session_id;
  payload = payload;
}

-- binary.BigEndian.PutUint32
abbrev pub put_u32 : ℕ → Bytes
put_u32 n = n / 2 ^ 24 % 256 ∷ n / 2 ^ 16 % 256 ∷ n / 2 ^ 8 % 256 ∷ n % 256 ∷ []

-- binary.BigEndian.Uint32 of four bytes.
abbrev pub u32 : Bytes → ℕ
u32 b = get_or b 0 0 * 2 ^ 24 + get_or b 1 0 * 2 ^ 16 + get_or b 2 0 * 2 ^ 8 + get_or b 3 0

unfoldable pub encode : Message → Bytes
encode m =
    m.version ∷ m.type ∷ put_u32 m.session_id ++ (put_u32 (length m.payload % 2 ^ 32) ++ m.payload)

pub data Error : Type 0 where
  eof unexpected_eof : Error
  unsupported_version : ℕ → Error
  payload_too_large : ℕ → Error
  too_short : ℕ → Error
  length_mismatch : ℕ → ℕ → Error

-- io.ReadFull(r, make([]byte, n)): the bytes that were read, and the rest of the stream.
abbrev pub read_full : ℕ → Bytes → Result Error (Bytes × Bytes)
read_full n stream =
    if ltb (length stream) n
    then (if is_empty stream then err eof else err unexpected_eof)
    else ok (take n stream, drop n stream)

read_payload : ℕ → Bytes → Result Error (Bytes × Bytes)
read_payload n stream = if ltb 0 n then read_full n stream else ok ([], stream)

unfoldable pub read_message : Bytes → Result Error (Message × Bytes)
unfolding read_payload
read_message r = read_full header_size r >>= λ (header, rest).
    let version = get_or header 0 0 in
    let payload_len = u32 (drop 6 header) in
    if not (version == protocol_version)
    then err (unsupported_version version)
    else if ltb max_payload_size payload_len
    then err (payload_too_large payload_len)
    else read_payload payload_len rest >>= λ (payload, tail). ok (
      record {
        version = version;
        type = get_or header 1 0;
        session_id = u32 (drop 2 header);
        payload = payload;
      },
      tail,
    )

unfoldable pub read_message_from_bytes : Bytes → Result Error Message
read_message_from_bytes data' =
    let version = get_or data' 0 0 in
    let payload_len = u32 (drop 6 data') in
    if ltb (length data') header_size
    then err (too_short (length data'))
    else if not (version == protocol_version)
    then err (unsupported_version version)
    else if not (payload_len == (length data' - header_size))
    then err (length_mismatch payload_len (length data' - header_size))
    else ok (record {
      version = version;
      type = get_or data' 1 0;
      session_id = u32 (drop 2 data');
      payload = take payload_len (drop header_size data');
    })
