-- ===== src/Proto/Message/Reject.antt =====
-- What ReadMessage and ReadMessageFromBytes accept, and nothing else.
use clienthub.Prelude.{
  ℕ, suc, ◌^◌, ◌≤◌, ◌<◌, ◌≡◌, [], ◌∷◌, ◌++◌, arith, length, take-length, take-append-drop, take,
  ◌||◌, ◌==◌, nat_eq, if◌then◌else◌, length-take, ok, err, All,
}
use clienthub.Proto.Message.{
  Bytes, Message, header_size, protocol_version, max_payload_size, u32, encode, read_message,
  read_message_from_bytes, eof, unexpected_eof,
}

-- Every number of the list is a byte.
abbrev pub AreBytes : Bytes → Type 0
AreBytes = All (λ b. b < 256)

-- ReadMessageFromBytes accepts nothing but what Encode writes, of fewer than 2^32 bytes.
pub encode-read_message_from_bytes :
    (data' : Bytes) {m : Message}
    → AreBytes data'
    → length data' < 2 ^ 32
    → read_message_from_bytes data' ≡ ok m
    → encode m ≡ data'
unfolding read_message_from_bytes encode
encode-read_message_from_bytes (v ∷ t ∷ a ∷ b ∷ c ∷ d ∷ e ∷ f ∷ g ∷ h ∷ payload) hs l r =
    ground (arith, take-length payload)
encode-read_message_from_bytes _ hs l r = ground arith

-- Whatever ReadMessage accepts of a stream of bytes is what Encode writes, followed by what it
-- leaves unread, and carries at most 1 MB.
pub encode-read_message :
    (stream : Bytes) {m : Message} {rest : Bytes}
    → AreBytes stream
    → read_message stream ≡ ok (m, rest)
    → (encode m ++ rest ≡ stream) × (length m.payload ≤ max_payload_size)
unfolding read_message encode
encode-read_message (v ∷ t ∷ a ∷ b ∷ c ∷ d ∷ e ∷ f ∷ g ∷ h ∷ tail) hs r = ground (
  arith,
  take-append-drop (u32 (e ∷ f ∷ g ∷ h ∷ [])) tail,
  length-take (u32 (e ∷ f ∷ g ∷ h ∷ [])) tail,
)
encode-read_message _ hs r = ground arith

-- A stream that ends inside a message of this program's version with at most 1 MB of payload is
-- refused, wherever it was cut. The error is that of an orderly end exactly if nothing, or the
-- header and nothing else, could be read.
pub read_message_cut :
    (m : Message) (n : ℕ)
    → m.version ≡ protocol_version
    → n < length (encode m)
    → length m.payload ≤ max_payload_size
    → read_message (take n (encode m))
      ≡ err (if n == 0 || n == header_size then eof else unexpected_eof)
unfolding read_message encode
read_message_cut m (suc (suc (suc (suc (suc (suc (suc (suc (suc (suc k)))))))))) v h l =
    ground (arith, length-take k m.payload)
read_message_cut m _ v h l = ground arith
