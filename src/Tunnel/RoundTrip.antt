-- ===== src/Tunnel/RoundTrip.antt =====
-- WriteMessage at one end of a connection against ReadEncryptedMessage at the other.
use clienthub.Prelude.{
  ℕ, ◌+◌, ◌%◌, ◌^◌, ◌≤◌, ◌<◌, ◌≡◌, refl, some, ◌++◌, arith, length, length-append, take-append,
  drop-append, ok, err, map_err, ◌>>=◌,
}
use clienthub.Proto.Message.{
  Bytes, Message, max_payload_size, put_u32, encode, read_message_from_bytes,
}
use clienthub.Proto.Message.RoundTrip.{IsSendable, length-encode, read_message_from_bytes-encode}
use clienthub.Crypto.{Primitives, IsCorrect, nonce_size, encrypt, decrypt}
use clienthub.Crypto.Laws.{length-encrypt, decrypt-encrypt}
use clienthub.Tunnel.{
  write_message, read_encrypted_message, malformed, undecryptable, invalid_message,
}

-- The largest payload that fits a frame: the header, the nonce and the tag take 50 bytes.
abbrev pub max_carried : ℕ
max_carried = max_payload_size + 974

module _ (p : Primitives) where
  -- A frame of a permitted size is taken off the stream whole, and its content decides.
  pub read_encrypted_message-frame :
      (key sealed rest : Bytes)
      → 0 < length sealed
      → length sealed ≤ max_payload_size + 1024
      → read_encrypted_message p key (put_u32 (length sealed % 2 ^ 32) ++ (sealed ++ rest)) ≡ (
          map_err undecryptable (decrypt p key sealed) >>= λ decrypted.
          map_err malformed (read_message_from_bytes decrypted) >>= λ msg. ok (msg, rest))
  unfolding read_encrypted_message
  read_encrypted_message-frame key sealed rest pos bound =
      ground (arith, length-append sealed rest, take-append sealed rest, drop-append sealed rest)

  -- Any other size is refused before a byte of the content is read.
  pub read_encrypted_message-oversized :
      (key sealed rest : Bytes)
      → length sealed < 2 ^ 32
      → max_payload_size + 1024 < length sealed
      → read_encrypted_message p key (put_u32 (length sealed % 2 ^ 32) ++ (sealed ++ rest))
        ≡ err invalid_message
  unfolding read_encrypted_message
  read_encrypted_message-oversized key sealed rest fits large = ground arith

module _ (p : Primitives) (c : IsCorrect p) where
  -- What one end writes with a nonce of 24 bytes, the other end reads under the same key, and it
  -- leaves the bytes that follow, if the message has this program's version and a session number of
  -- 32 bits, and a payload of at most 1 MB and 974 bytes.
  pub read_encrypted_message-write_message :
      (key nonce : Bytes) (msg : Message) (rest : Bytes) {frame : Bytes}
      → IsSendable msg
      → length nonce ≡ nonce_size
      → length msg.payload ≤ max_carried
      → write_message p key (some nonce) msg ≡ ok frame
      → read_encrypted_message p key (frame ++ rest) ≡ ok (msg, rest)
  unfolding write_message encrypt
  read_encrypted_message-write_message key nonce msg rest s n l e =
      let sealed = nonce ++ p.seal key nonce (encode msg) in
      ground (
        arith,
        length-encode msg,
        length-encrypt p c key nonce (encode msg) {sealed = sealed} refl,
        read_encrypted_message-frame p key sealed rest,
        decrypt-encrypt p c key nonce (encode msg) {sealed = sealed} n refl,
        read_message_from_bytes-encode msg s,
      )

  -- A message with a larger payload, below 2^31 bytes, is written without an error with a nonce of 24
  -- bytes, and every reader refuses its frame, whatever its key and its cipher are.
  pub write_message_oversized :
      (key nonce : Bytes) (msg : Message)
      → length nonce ≡ nonce_size
      → max_carried < length msg.payload
      → length msg.payload < 2 ^ 31
      → (frame : Bytes) × (write_message p key (some nonce) msg ≡ ok frame)
        × ((q : Primitives) (other rest : Bytes)
            → read_encrypted_message q other (frame ++ rest) ≡ err invalid_message)
  unfolding write_message encrypt
  write_message_oversized key nonce msg n large fits =
      let sealed = nonce ++ p.seal key nonce (encode msg) in
      (
        put_u32 (length sealed % 2 ^ 32) ++ sealed,
        ground arith,
        λ q other rest. ground (
          arith,
          length-encode msg,
          length-encrypt p c key nonce (encode msg) {sealed = sealed} refl,
          read_encrypted_message-oversized q other sealed rest,
        ),
      )
