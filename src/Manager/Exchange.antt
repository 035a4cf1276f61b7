-- ===== src/Manager/Exchange.antt =====
-- What one exchange with the server does to its connection.
use clienthub.Prelude.{
  ◌≡◌, ◌≢◌, refl, ap, ◌∙◌, String, Bool, true, false, Option, none, some, List, [], ◌∷◌, ◌++◌, ◌==◌,
  ==_iff, nat_eq, Result, ok, err, arith, Bool-cases, Option-cases, inl, inr,
}
use clienthub.Proto.Message.{Bytes, Message, MsgType, new_message, msg_auth_ok, msg_response}
use clienthub.Proto.Payload.{ResponsePayload, decode_json}
use clienthub.Crypto.{Primitives}
use clienthub.Manager.{
  Manager, Library, Line, Event, Event.opened, Event.closed, Event.wrote, Connected, hello, connect,
  dialed, authenticated, welcomed, send_command, on_connection, commanded, response_of,
}

-- The connection is open at the end, if it was or was not at the start.
abbrev pub stays_open : Bool → List Event → Bool
stays_open b [] = b
stays_open b (opened ∷ es) = stays_open true es
stays_open b (closed ∷ es) = stays_open false es
stays_open b (wrote m ∷ es) = stays_open b es

-- The connection was made, the token was accepted, and nothing else was written.
pub record IsWelcome (p : Primitives) (lib : Library) (line : Line) (m : Manager) : Type 0 where
  pub dialed : line.dial ≡ none
  pub written : line.write (hello p lib m) ≡ none
  pub resp : Message
  pub answer : line.read (hello p lib m ∷ []) ≡ ok resp
  pub accepted : resp.type ≡ msg_auth_ok

module _ (p : Primitives) (lib : Library) (line : Line) (m : Manager) where
  -- Either a connection that can be used, or an error and none that is open.
  abbrev Connects : Connected → Type 0
  Connects (none, es) = IsWelcome p lib line m × (es ≡ opened ∷ wrote (hello p lib m) ∷ [])
  Connects (some e, es) = stays_open false es ≡ false

  welcomed-Connects :
      line.dial ≡ none
      → line.write (hello p lib m) ≡ none
      → (r : Result String Message) → line.read (hello p lib m ∷ []) ≡ r
      → Connects (welcomed lib (hello p lib m) r)
  unfolding welcomed
  welcomed-Connects d w (err e) f = refl
  welcomed-Connects d w (ok resp) f = elim (Bool-cases (resp.type == msg_auth_ok)) [
    | inl t ↦ rw t (
      record {
        dialed = d;
        written = w;
        resp = resp;
        answer = f;
        accepted = (==_iff resp.type msg_auth_ok).0 t;
      },
      refl,
    )
    | inr t ↦ rw t refl
  ]

  authenticated-Connects :
      line.dial ≡ none
      → (o : Option String) → line.write (hello p lib m) ≡ o
      → Connects (authenticated lib line (hello p lib m) o)
  unfolding authenticated
  authenticated-Connects d (some e) w = refl
  authenticated-Connects d none w = welcomed-Connects d w _ refl

  dialed-Connects : (o : Option String) → line.dial ≡ o → Connects (dialed p lib line m o)
  unfolding dialed
  dialed-Connects (some e) d = refl
  dialed-Connects none d = authenticated-Connects d _ refl

  connect-Connects : Connects (connect p lib line m)
  unfolding connect
  connect-Connects = dialed-Connects _ refl

  -- An exchange leaves no connection open, whatever fails.
  pub send_command-closes :
      (msg_type : MsgType) (payload : Bytes)
      → stays_open false (send_command p lib line msg_type payload m).1 ≡ false
  unfolding send_command on_connection
  send_command-closes msg_type payload = go (connect p lib line m) connect-Connects
    where
      msg : Message
      msg = new_message msg_type 0 payload

      go :
          (c : Connected)
          → Connects c
          → stays_open false (on_connection p lib line m msg c).1 ≡ false
      go (some e, es) h = h
      go (none, es) h = elim (Option-cases (line.write msg)) [
        | inl w ↦ rw (w, h.1, commanded) refl
        | inr (e, w) ↦ rw (w, h.1, commanded) refl
      ]

  -- The connection is made, the token is accepted, the command is written, and the answer to it is a
  -- response with this content.
  pub record IsAnswered (msg : Message) (r : ResponsePayload) : Type 0 where
    pub welcome : IsWelcome p lib line m
    pub written : line.write msg ≡ none
    pub resp : Message
    pub answer : line.read (hello p lib m ∷ msg ∷ []) ≡ ok resp
    pub is_response : resp.type ≡ msg_response
    pub content : decode_json lib.response resp.payload ≡ some r

  connect-welcome :
      IsWelcome p lib line m → connect p lib line m ≡ (none, opened ∷ wrote (hello p lib m) ∷ [])
  unfolding connect dialed authenticated welcomed
  connect-welcome h =
      ap (dialed p lib line m) h.dialed
      ∙ (ap (authenticated lib line (hello p lib m)) h.written
          ∙ (ap (welcomed lib (hello p lib m)) h.answer ∙ rw (h.accepted) refl))

  pub send_command_answered :
      (msg_type : MsgType) (payload : Bytes) (r : ResponsePayload)
      → let msg = new_message msg_type 0 payload in
        IsAnswered msg r
        → send_command p lib line msg_type payload m
          ≡ (ok r, opened ∷ wrote (hello p lib m) ∷ wrote msg ∷ closed ∷ [])
  unfolding send_command on_connection commanded response_of
  send_command_answered msg_type payload r h =
      let msg = new_message msg_type 0 payload in
      let es : List Event = opened ∷ wrote (hello p lib m) ∷ [] in
      ap (on_connection p lib line m msg) (connect-welcome h.welcome)
      ∙ (ap (commanded p lib line m msg es) h.written
          ∙ (ap (λ a. (response_of lib a, es ++ (wrote msg ∷ closed ∷ []))) h.answer
              ∙ rw (h.is_response, h.content) refl))

  -- Any other answer to the token ends the exchange before the command is written.
  pub send_command_unwelcome :
      (msg_type : MsgType) (payload : Bytes) (resp : Message)
      → line.dial ≡ none
      → line.write (hello p lib m) ≡ none
      → line.read (hello p lib m ∷ []) ≡ ok resp
      → resp.type ≢ msg_auth_ok
      → send_command p lib line msg_type payload m ≡ (
        err (lib.sprintf "authentication failed" []),
        opened ∷ wrote (hello p lib m) ∷ closed ∷ [],
      )
  unfolding send_command on_connection connect dialed authenticated welcomed
  send_command_unwelcome msg_type payload resp d w a ne =
      let msg = new_message msg_type 0 payload in
      let other : (resp.type == msg_auth_ok) ≡ false =
        ground (arith, ==_iff resp.type msg_auth_ok, ne) in
      ap (λ o. on_connection p lib line m msg (dialed p lib line m o)) d
      ∙ (ap (λ o. on_connection p lib line m msg (authenticated lib line (hello p lib m) o)) w
          ∙ (ap (λ r. on_connection p lib line m msg (welcomed lib (hello p lib m) r)) a
              ∙ rw other refl))
