-- ===== src/Crypto.antt =====
-- pkg/crypto/chacha20.go: the cipher of the frames, and the token by which a client proves that it
-- has the secret. Argon2id, XChaCha20-Poly1305, HMAC-SHA256 and the random numbers are not code of
-- this repository: they are the fields of `Primitives`.
pub mod Laws
use Prim.Native.String.{String}
use clienthub.Prelude.{
  ℕ, ◌+◌, ◌≡◌, ◌↔◌, refl, Bool, true, false, Option, none, some, List, [], ◌∷◌, ◌++◌, ltb, ◌==◌,
  nat_eq, not, if◌then◌else◌, length, take, drop, replicate, drop-append, take-append, Result, ok,
  err, arith,
}
use clienthub.Proto.Message.{Bytes}

abbrev pub key_size : ℕ
key_size = 32

abbrev pub nonce_size : ℕ
nonce_size = 24

abbrev pub salt_size : ℕ
salt_size = 16

-- []byte("clienthub-fixed-salt-v1"), of server.New, client.New and manager.New
abbrev pub fixed_salt : Bytes
fixed_salt =
    99 ∷ 108 ∷ 105 ∷ 101 ∷ 110 ∷ 116 ∷ 104 ∷ 117 ∷ 98 ∷ 45 ∷ 102 ∷ 105 ∷ 120 ∷ 101 ∷ 100 ∷ 45 ∷ 115
    ∷ 97 ∷ 108 ∷ 116 ∷ 45 ∷ 118 ∷ 49 ∷ []

-- argon2.IDKey, aead.Seal and aead.Open under the key of the cipher and with no additional data,
-- the sum of hmac.New(sha256.New, key) over a text, and hmac.Equal.
pub record Primitives : Type 0 where
  pub id_key : String → Bytes → Bytes
  pub seal : Bytes → Bytes → Bytes → Bytes
  pub unseal : Bytes → Bytes → Bytes → Option Bytes
  pub mac : Bytes → String → Bytes
  pub mac_equal : Bytes → Bytes → Bool

-- What their documentation promises: `Open` inverts `Seal` under the same key and nonce, `Seal` adds
-- a tag of 16 bytes, and `Equal` compares.
pub record IsCorrect (p : Primitives) : Type 0 where
  pub unseal-seal :
      (key nonce text : Bytes) → p.unseal key nonce (p.seal key nonce text) ≡ some text
  pub length-seal : (key nonce text : Bytes) → length (p.seal key nonce text) ≡ length text + 16
  pub mac_equal_iff : (a b : Bytes) → (p.mac_equal a b ≡ true) ↔ (a ≡ b)

pub data Error : Type 0 where
  invalid_key_size : ℕ → Error
  no_randomness ciphertext_too_short open_failed : Error

module _ (p : Primitives) where
  -- `none` for the random bytes is an error of io.ReadFull(rand.Reader, …).
  unfoldable pub derive_key : String → Bytes → Bytes
  derive_key password salt = p.id_key password salt

  unfoldable pub generate_salt : Option Bytes → Result Error Bytes
  generate_salt none = err no_randomness
  generate_salt (some salt) = ok salt

  -- A Cipher is its key; the cached AEAD is a function of it.
  unfoldable pub new_cipher : Bytes → Result Error Bytes
  new_cipher key =
      if not (length key == key_size) then err (invalid_key_size (length key)) else ok key

  unfoldable pub new_cipher_from_password : String → Bytes → Bytes
  unfolding derive_key
  new_cipher_from_password password salt = derive_key password salt

  -- nonce || ciphertext+tag
  unfoldable pub encrypt : Bytes → Option Bytes → Bytes → Result Error Bytes
  encrypt key none plaintext = err no_randomness
  encrypt key (some nonce) plaintext = ok (nonce ++ p.seal key nonce plaintext)

  or_open_failed : Option Bytes → Result Error Bytes
  or_open_failed none = err open_failed
  or_open_failed (some plaintext) = ok plaintext

  unfoldable pub decrypt : Bytes → Bytes → Result Error Bytes
  unfolding or_open_failed
  decrypt key data' =
      if ltb (length data') nonce_size
      then err ciphertext_too_short
      else or_open_failed (p.unseal key (take nonce_size data') (drop nonce_size data'))

  unfoldable pub compute_auth_token : String → Bytes → Bytes
  compute_auth_token client_name key = p.mac key client_name

  unfoldable pub verify_auth_token : String → Bytes → Bytes → Bool
  unfolding compute_auth_token
  verify_auth_token client_name token key = p.mac_equal token (compute_auth_token client_name key)
