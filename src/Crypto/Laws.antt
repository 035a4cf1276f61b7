-- ===== src/Crypto/Laws.antt =====
-- What the primitives' laws give for Encrypt, Decrypt and the authentication token.
use clienthub.Prelude.{
  ◌+◌, ◌≡◌, ◌↔◌, true, String, some, arith, length, length-append, take-append, drop-append, ok,
}
use clienthub.Proto.Message.{Bytes}
use clienthub.Crypto.{
  Primitives, IsCorrect, nonce_size, encrypt, decrypt, compute_auth_token, verify_auth_token,
}

module _ (p : Primitives) (c : IsCorrect p) where
  pub length-encrypt :
      (key nonce text : Bytes) {sealed : Bytes}
      → encrypt p key (some nonce) text ≡ ok sealed
      → length sealed ≡ length nonce + length text + 16
  unfolding encrypt
  length-encrypt key nonce text e =
      ground (arith, length-append nonce (p.seal key nonce text), c.length-seal key nonce text)

  -- Decrypt under the same key gives back what was encrypted, whatever nonce of 24 bytes was drawn.
  pub decrypt-encrypt :
      (key nonce text : Bytes) {sealed : Bytes}
      → length nonce ≡ nonce_size
      → encrypt p key (some nonce) text ≡ ok sealed
      → decrypt p key sealed ≡ ok text
  unfolding encrypt decrypt
  decrypt-encrypt key nonce text h e = ground (
    arith,
    length-append nonce (p.seal key nonce text),
    take-append nonce (p.seal key nonce text),
    drop-append nonce (p.seal key nonce text),
    c.unseal-seal key nonce text,
  )

  -- A token passes the check exactly if it is the token of that name under that key.
  pub verify_auth_token_iff :
      (client_name : String) (token key : Bytes)
      → (verify_auth_token p client_name token key ≡ true)
        ↔ (token ≡ compute_auth_token p client_name key)
  unfolding verify_auth_token
  verify_auth_token_iff client_name token key =
      c.mac_equal_iff token (compute_auth_token p client_name key)
