-- ===== src/Server/Admin/Dispatch/Acceptance.antt =====
-- Whose commands are read.
use clienthub.Prelude.{
  ℕ, ◌≡◌, refl, Bool, true, false, not, Option, none, some, List, [], ◌==◌, ==_iff, nat_eq,
  if◌then◌else◌, arith,
}
use clienthub.Proto.Message.{Bytes, Message, new_message, msg_auth, msg_auth_ok, msg_auth_fail}
use clienthub.Proto.Payload.{AuthPayload, decode_json}
use clienthub.Crypto.{Primitives, IsCorrect, verify_auth_token}
use clienthub.Crypto.Laws.{verify_auth_token_iff}
use clienthub.Relay.{Write}
use clienthub.Server.State.{Library, Net, send}
use clienthub.Server.Session.Authentication.{IsProof}
use clienthub.Server.Admin.Dispatch.{accept_admin, admin_token}

module _ (p : Primitives) (correct : IsCorrect p) (key : Bytes) (lib : Library) (net : Net)
    (conn : ℕ) (msg : Message) where
  abbrev pub welcome : List Write
  welcome = send net (conn, new_message msg_auth_ok 0 [])

  abbrev pub refusal : List Write
  refusal = send net (conn, new_message msg_auth_fail 0 [])

  pub accept_admin-proof :
      (auth : AuthPayload)
      → IsProof p key lib msg auth
      → accept_admin p key lib net conn (some msg) ≡ (welcome, true)
  unfolding accept_admin
  accept_admin-proof auth h =
      let good = (verify_auth_token_iff p correct auth.client_name auth.token key).1 h.token in
      rw (h.is_auth, h.readable, admin_token) (rw good refl)

  -- The token is not that of its name under the server's key.
  pub accept_admin-wrong_token :
      (auth : AuthPayload)
      → msg.type ≡ msg_auth
      → decode_json lib.auth msg.payload ≡ some auth
      → verify_auth_token p auth.client_name auth.token key ≡ false
      → accept_admin p key lib net conn (some msg) ≡ (refusal, false)
  unfolding accept_admin
  accept_admin-wrong_token auth t d bad = rw (t, d, admin_token) (rw bad refl)

  -- Commands are read only after a message that carries the token of some name under the server's
  -- key; it need not be an administrator's name.
  pub accept_admin_sound :
      (accept_admin p key lib net conn (some msg)).1 ≡ true
      → (auth : AuthPayload) × IsProof p key lib msg auth
  unfolding accept_admin admin_token
  accept_admin_sound e = go (msg.type == msg_auth) refl e
    where
      checked :
          msg.type ≡ msg_auth
          → (o : Option AuthPayload) → decode_json lib.auth msg.payload ≡ o
          → (admin_token p key net conn o).1 ≡ true
          → (auth : AuthPayload) × IsProof p key lib msg auth
      checked t none d e = cc
      checked t (some auth) d e = (
        auth,
        record {
          is_auth = t;
          readable = d;
          token =
              (verify_auth_token_iff p correct auth.client_name auth.token key).0 (ground arith);
        },
      )

      go :
          (b : Bool)
          → (msg.type == msg_auth) ≡ b
          → (if not b
              then ([], false)
              else admin_token p key net conn (decode_json lib.auth msg.payload)).1
            ≡ true
          → (auth : AuthPayload) × IsProof p key lib msg auth
      go true t e = checked ((==_iff msg.type msg_auth).0 t) _ refl e
      go false t e = cc
