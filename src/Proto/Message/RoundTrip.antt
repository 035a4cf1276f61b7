-- ===== src/Proto/Message/RoundTrip.antt =====
-- Encode against ReadMessage and ReadMessageFromBytes.
use clienthub.Prelude.{
  ℕ, ◌+◌, ◌^◌, ◌≤◌, ◌<◌, ◌≡◌, ◌++◌, arith, length, length-append, take-append, drop-append,
  take-length, ok,
}
use clienthub.Proto.Message.{
  Bytes, Message, protocol_version, max_payload_size, put_u32, u32, encode, read_message,
  read_message_from_bytes,
}

-- What a sender may put in a message: the version of this program, and a session number of 32 bits.
pub record IsSendable (m : Message) : Type 0 where
  pub current : m.version ≡ protocol_version
  pub session_fits : m.session_id < 2 ^ 32

pub u32-put_u32 : (n : ℕ) (rest : Bytes) → n < 2 ^ 32 → u32 (put_u32 n ++ rest) ≡ n
u32-put_u32 n rest h = omega arith

pub length-encode : (m : Message) → length (encode m) ≡ length m.payload + 10
unfolding encode
length-encode m = omega arith

-- Encode, then ReadMessageFromBytes: the message comes back, if its payload is shorter than 2^32.
pub read_message_from_bytes-encode :
    (m : Message)
    → IsSendable m
    → length m.payload < 2 ^ 32
    → read_message_from_bytes (encode m) ≡ ok m
unfolding read_message_from_bytes encode
read_message_from_bytes-encode m s h = ground (arith, take-length m.payload)

-- Encode, then ReadMessage on a stream that goes on with `rest`: a message of this program's
-- version and with a session number of 32 bits comes back and `rest` is left unread, if the payload
-- is at most 1 MB.
pub read_message-encode :
    (m : Message) (rest : Bytes)
    → IsSendable m
    → length m.payload ≤ max_payload_size
    → read_message (encode m ++ rest) ≡ ok (m, rest)
unfolding read_message encode
read_message-encode m rest s h =
    ground
      (arith, length-append m.payload rest, take-append m.payload rest, drop-append m.payload rest)
