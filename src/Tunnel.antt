-- ===== src/Tunnel.antt =====
-- pkg/tunnel/tunnel.go: a frame on the connection is the length of four bytes and that many bytes of
-- an encrypted message.
pub mod RoundTrip
pub mod Stream
use clienthub.Prelude.{
  ℕ, ◌+◌, ◌%◌, ◌^◌, ◌≡◌, Bool, ◌||◌, Option, List, ◌++◌, ltb, leb, if◌then◌else◌, length, Result,
  ok, err, ◌>>=◌, map_err,
}
use clienthub.Proto.Message
use clienthub.Proto.Message.{
  Bytes, Message, max_payload_size, put_u32, u32, encode, read_full, read_message_from_bytes,
}
use clienthub.Crypto
use clienthub.Crypto.{Primitives, encrypt, decrypt}

pub data Error : Type 0 where
  -- the connection ended, or another error of the bytes that are read
  malformed : Message.Error → Error
  -- proto.ErrInvalidMessage
  invalid_message : Error
  undecryptable : Crypto.Error → Error

module _ (p : Primitives) where
  -- The frame that WriteMessage hands to conn.Write, in one call.
  unfoldable pub write_message : Bytes → Option Bytes → Message → Result Crypto.Error Bytes
  write_message key nonce msg = encrypt p key nonce (encode msg) >>= λ encrypted.
      ok (put_u32 (length encrypted % 2 ^ 32) ++ encrypted)

  -- The message, and the rest of the stream.
  unfoldable pub read_encrypted_message : Bytes → Bytes → Result Error (Message × Bytes)
  read_encrypted_message key r = map_err malformed (read_full 4 r) >>= λ (len_buf, rest).
      let frame_len = u32 len_buf in
      if leb frame_len 0 || ltb (max_payload_size + 1024) frame_len
      then err invalid_message
      else map_err malformed (read_full frame_len rest) >>= λ (encrypted, tail).
          map_err undecryptable (decrypt p key encrypted) >>= λ decrypted.
          map_err malformed (read_message_from_bytes decrypted) >>= λ msg. ok (msg, tail)
