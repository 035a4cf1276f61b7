-- ===== src/Server/Session/Authentication.antt =====
-- Who gets a session.
use mathlib.Core.Option.{some-injective}
use clienthub.Prelude.{
  ℕ, ◌≡◌, ◌≢◌, refl, sym, ◌∙◌, subst, ◌⊎◌, String, Option, none, some, List, [], ◌∷◌, ◌==◌, ==_iff,
  ==_refl, nat_eq, string_eq, arith, Bool-cases, inl, inr,
}
use clienthub.Proto.Message.{Bytes, Message, msg_auth}
use clienthub.Proto.Payload.{AuthPayload, decode_json}
use clienthub.Crypto.{Primitives, IsCorrect, compute_auth_token, verify_auth_token}
use clienthub.Crypto.Laws.{verify_auth_token_iff}
use clienthub.Registry.{get_client, add_client}
use clienthub.Registry.Laws.{get_client-add_client}
use clienthub.Relay.{Write}
use clienthub.Server.State.{Server, Library, Net, send}
use clienthub.Server.Session.{
  accept_client, check_token, admit, kick_existing, greeted, new_session, auth_ok, auth_fail, close,
}

-- The first message names a client and carries its token under the server's key.
pub record IsProof (p : Primitives) (key : Bytes) (lib : Library) (msg : Message)
    (auth : AuthPayload) : Type 0 where
  pub is_auth : msg.type ≡ msg_auth
  pub readable : decode_json lib.auth msg.payload ≡ some auth
  pub token : auth.token ≡ compute_auth_token p auth.client_name key

module _ (p : Primitives) (c : IsCorrect p) (key : Bytes) (lib : Library) (net : Net) (conn now : ℕ)
    (s : Server) where
  -- Either the message proves a name, and its client is admitted, or it proves none.
  check_token-cases :
      (msg : Message) (o : Option AuthPayload)
      → msg.type ≡ msg_auth
      → decode_json lib.auth msg.payload ≡ o
      → ((auth : AuthPayload) × IsProof p key lib msg auth
          × (check_token p key lib net conn now s o ≡ admit net conn now auth.client_name s))
        ⊎ ((ws : List Write) × (check_token p key lib net conn now s o ≡ (close conn s, ws, none))
            × ((auth : AuthPayload) → ¬ IsProof p key lib msg auth))
  unfolding check_token
  check_token-cases msg none t e = inr ([], refl, λ auth h. cc (h.readable, e))
  check_token-cases msg (some auth) t e =
      let iff = verify_auth_token_iff p c auth.client_name auth.token key in
      elim (Bool-cases (verify_auth_token p auth.client_name auth.token key)) [
        | inl good ↦
            inl (auth, record { is_auth = t; readable = e; token = iff.0 good }, rw good refl)
        | inr bad ↦ inr (
          send net (auth_fail conn),
          rw bad refl,
          λ auth' h.
              let same : auth' ≡ auth = some-injective _ _ (sym h.readable ∙ e) in
              cc (
                bad,
                iff.1 (subst (λ a. a.token ≡ compute_auth_token p a.client_name key) same h.token),
              ),
        )
      ]

  accept_client-cases :
      (msg : Message)
      → ((auth : AuthPayload) × IsProof p key lib msg auth
          × (accept_client p key lib net conn now (some msg) s
              ≡ admit net conn now auth.client_name s))
        ⊎ ((ws : List Write) × (accept_client p key lib net conn now (some msg) s
              ≡ (close conn s, ws, none))
            × ((auth : AuthPayload) → ¬ IsProof p key lib msg auth))
  unfolding accept_client
  accept_client-cases msg = elim (Bool-cases (msg.type == msg_auth)) [
    | inl t ↦ rw t (check_token-cases msg _ ((==_iff msg.type msg_auth).0 t) refl)
    | inr f ↦ rw f (inr ([], refl, λ auth h. ground (arith, h.is_auth, ==_iff msg.type msg_auth)))
  ]

  pub accept_client-proof :
      (msg : Message) (auth : AuthPayload)
      → IsProof p key lib msg auth
      → accept_client p key lib net conn now (some msg) s ≡ admit net conn now auth.client_name s
  accept_client-proof msg auth h = elim (accept_client-cases msg) [
    | inl (auth', h', f) ↦
        let same : auth' ≡ auth = some-injective _ _ (sym h'.readable ∙ h.readable) in
        rw (f, same) refl
    | inr (ws, f, k) ↦ absurd (k auth h)
  ]

  greeted-some :
      (name : String) (s' : Server) (o : Option String) {name' : String}
      → (greeted name conn s' o).2 ≡ some name'
      → (name ≡ name') × ((greeted name conn s' o).0 ≡ s')
  unfolding greeted
  greeted-some name s' none e = (some-injective _ _ e, refl)
  greeted-some name s' (some w) e = cc

  registered :
      (name : String) (s' : Server)
      → get_client name (add_client (new_session name conn now) s'.registry)
        ≡ some (new_session name conn now)
  registered name s' =
      ground
        (arith, get_client-add_client (new_session name conn now) name s'.registry, ==_refl name)

  admit-some :
      (name : String) {name' : String}
      → (admit net conn now name s).2 ≡ some name'
      → (name ≡ name')
        × (get_client name (admit net conn now name s).0.registry
            ≡ some (new_session name conn now))
  unfolding admit
  admit-some name e =
      let s' = kick_existing name (get_client name s.registry) s in
      let (f, g) = greeted-some name _ (net (auth_ok conn)) e in (f, rw g (registered name s'))

  admit_complete :
      (name : String)
      → net (auth_ok conn) ≡ none
      → ((admit net conn now name s).2 ≡ some name)
        × ((admit net conn now name s).1 ≡ auth_ok conn ∷ [])
        × (get_client name (admit net conn now name s).0.registry
            ≡ some (new_session name conn now))
  unfolding admit
  admit_complete name e =
      rw (e, greeted)
        (refl, refl, registered name (kick_existing name (get_client name s.registry) s))

  -- The loop of a connection runs under a name only after a message that proves the name, and then
  -- the name is registered with this connection.
  pub accept_client_sound :
      (first : Option Message) {name : String}
      → (accept_client p key lib net conn now first s).2 ≡ some name
      → (msg : Message) × (auth : AuthPayload) × (first ≡ some msg)
        × IsProof p key lib msg auth
        × (auth.client_name ≡ name)
        × (get_client name (accept_client p key lib net conn now first s).0.registry
            ≡ some (new_session name conn now))
  accept_client_sound none e = unfold accept_client in cc
  accept_client_sound (some msg) {name} e = elim (accept_client-cases msg) [
    | inl (auth, h, f) ↦
        let (g, k) = admit-some auth.client_name {name' = name} (rw f at e) in
        (msg, auth, refl, h, g, rw f (rw (← g) k))
    | inr (ws, f, h) ↦ cc (rw f at e)
  ]

  -- A first message that proves no name, or none at all, gets no session: the connection is closed,
  -- and clients, tunnels and all else stay as they are.
  pub accept_client_refuses :
      (first : Option Message)
      → ((msg : Message) (auth : AuthPayload) → first ≡ some msg → ¬ IsProof p key lib msg auth)
      → let (s', ws, name) = accept_client p key lib net conn now first s in
        (name ≡ none) × (s' ≡ close conn s)
  accept_client_refuses none h = unfold accept_client in (refl, refl)
  accept_client_refuses (some msg) h = elim (accept_client-cases msg) [
    | inl (auth, k, f) ↦ absurd (h msg auth refl k)
    | inr (ws, f, k) ↦ rw f (refl, refl)
  ]

  -- A message that proves a name gets a session under it, whoever had the name before, if the answer
  -- can be written.
  pub accept_client_complete :
      (msg : Message) (auth : AuthPayload)
      → IsProof p key lib msg auth
      → net (auth_ok conn) ≡ none
      → let (s', ws, name) = accept_client p key lib net conn now (some msg) s in
        (name ≡ some auth.client_name)
        × (ws ≡ auth_ok conn ∷ [])
        × (get_client auth.client_name s'.registry ≡ some (new_session auth.client_name conn now))
  accept_client_complete msg auth h e =
      rw (accept_client-proof msg auth h) (admit_complete auth.client_name e)

  -- A message whose token is not that of its name is answered by a refusal.
  pub accept_client_wrong_token :
      (msg : Message) (auth : AuthPayload)
      → msg.type ≡ msg_auth
      → decode_json lib.auth msg.payload ≡ some auth
      → auth.token ≢ compute_auth_token p auth.client_name key
      → accept_client p key lib net conn now (some msg) s
        ≡ (close conn s, send net (auth_fail conn), none)
  unfolding accept_client check_token
  accept_client_wrong_token msg auth t e k =
      let iff = verify_auth_token_iff p c auth.client_name auth.token key in
      elim (Bool-cases (verify_auth_token p auth.client_name auth.token key)) [
        | inl good ↦ absurd (k (iff.0 good))
        | inr bad ↦ rw ((==_iff msg.type msg_auth).1 t, e, bad) refl
      ]
