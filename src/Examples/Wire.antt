-- ===== src/Examples/Wire.antt =====
-- Messages and frames.
use clienthub.Prelude.{
  ℕ, ◌+◌, ◌%◌, ◌^◌, ◌≤◌, ◌≡◌, refl, some, [], ◌∷◌, ◌++◌, length, replicate, length-replicate, take,
  ok, err, arith,
}
use clienthub.Proto.Message.{
  Bytes, Message, new_message, msg_data, put_u32, encode, read_message, unexpected_eof,
}
use clienthub.Proto.Message.Reject.{encode-read_message, read_message_cut}
use clienthub.Crypto.{Primitives, encrypt}
use clienthub.Tunnel.{write_message, read_encrypted_message, invalid_message}
use clienthub.Tunnel.RoundTrip.{
  max_carried, read_encrypted_message-write_message, write_message_oversized,
}
use clienthub.Examples.World.{primitives, primitives-IsCorrect, key, nonce, bytes_message}

-- The bytes of a message of type 7 on tunnel 3, with one byte.
abbrev written : Bytes
written = 1 ∷ 7 ∷ 0 ∷ 0 ∷ 0 ∷ 3 ∷ 0 ∷ 0 ∷ 0 ∷ 1 ∷ 42 ∷ []

encode-read_message_example :
    (encode (new_message msg_data 3 (42 ∷ [])) ++ [] ≡ written)
    × (length (new_message msg_data 3 (42 ∷ [])).payload ≤ 2 ^ 20)
unfolding read_message
encode-read_message_example =
    encode-read_message written {m = new_message msg_data 3 (42 ∷ [])} {rest = []} (ground arith)
      refl

read_message_cut_example : read_message (take 11 (encode bytes_message)) ≡ err unexpected_eof
unfolding encode
read_message_cut_example = read_message_cut bytes_message 11 refl (omega arith) (omega arith)

abbrev sealed : Message → Bytes
sealed msg = nonce ++ primitives.seal key nonce (encode msg)

abbrev frame : Message → Bytes
frame msg = put_u32 (length (sealed msg) % 2 ^ 32) ++ sealed msg

read_encrypted_message-write_message_example :
    read_encrypted_message primitives key (frame bytes_message ++ (0 ∷ []))
    ≡ ok (bytes_message, 0 ∷ [])
unfolding write_message encrypt
read_encrypted_message-write_message_example =
    read_encrypted_message-write_message primitives primitives-IsCorrect key nonce bytes_message
      (0 ∷ []) {frame = frame bytes_message} (record { current = refl; session_fits = omega arith })
      refl (omega arith) refl

-- A payload of any length.
unfoldable zeros : ℕ → Bytes
zeros n = replicate n 0

length-zeros : (n : ℕ) → length (zeros n) ≡ n
unfolding zeros
length-zeros n = length-replicate n 0

-- One byte more than a frame can carry.
abbrev large : Message
large = new_message msg_data 1 (zeros (max_carried + 1))

write_message_oversized_example :
    (sent : Bytes) × (write_message primitives key (some nonce) large ≡ ok sent)
    × ((q : Primitives) (other rest : Bytes)
        → read_encrypted_message q other (sent ++ rest) ≡ err invalid_message)
write_message_oversized_example =
    write_message_oversized primitives primitives-IsCorrect key nonce large refl
      (omega (arith, length-zeros (max_carried + 1)))
      (omega (arith, length-zeros (max_carried + 1)))
