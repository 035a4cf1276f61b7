-- ===== src/Tunnel/Stream.antt =====
-- The loops of the program that read one message after the other: `for { ReadEncryptedMessage … }`.
-- Such a loop is written on fuel, one unit for each round.
use mathlib.Core.Option.{some-injective}
use clienthub.Prelude.{
  ℕ, zero, suc, ◌+◌, ◌≤◌, ◌<◌, ◌≡◌, refl, subst, sym, ◌∙◌, Bool, Option, none, some, List, [], ◌∷◌,
  ◌++◌, ◌⊎◌, ◌||◌, ltb, leb, is_empty, >>=-ok, map_err-ok, ◌>>=◌, map_err, length-drop, Bool-cases,
  inl, inr, if◌then◌else◌, length, Result, ok, err, arith,
}
use clienthub.Proto.Message
use clienthub.Proto.Message.{
  Bytes, Message, read_full, read_message_from_bytes, u32, max_payload_size,
}
use clienthub.Proto.Message.RoundTrip.{IsSendable}
use clienthub.Crypto
use clienthub.Crypto.{Primitives, IsCorrect, nonce_size, decrypt}
use clienthub.Tunnel.{Error, write_message, read_encrypted_message, malformed, undecryptable}
use clienthub.Tunnel.RoundTrip.{max_carried, read_encrypted_message-write_message}

-- WriteMessage makes the frame of the message, with this nonce.
pub record IsCarried (p : Primitives) (key : Bytes) (msg : Message) (nonce frame : Bytes)
    : Type 0 where
  pub sendable : IsSendable msg
  pub nonce_sized : length nonce ≡ nonce_size
  pub fits : length msg.payload ≤ max_carried
  pub written : write_message p key (some nonce) msg ≡ ok frame

-- The frames that WriteMessage makes of messages, one behind the other.
pub data AreFrames (p : Primitives) (key : Bytes) : List Message → Bytes → Type 0 where
  no_frames : AreFrames p key [] []
  one_more :
      (msg : Message) (ms : List Message) (nonce frame rest : Bytes)
      → IsCarried p key msg nonce frame
      → AreFrames p key ms rest
      → AreFrames p key (msg ∷ ms) (frame ++ rest)

length-read_full : (n : ℕ) (r a b : Bytes) → read_full n r ≡ ok (a, b) → length b + n ≤ length r
length-read_full n r a b e = elim (Bool-cases (ltb (length r) n)) [
  | inl t ↦ absurd (elim (Bool-cases (is_empty r)) [ inl u ↦ cc | inr u ↦ cc ])
  | inr t ↦ ground (arith, length-drop n r)
]

parsed_tail :
    (tail : Bytes) (msg : Message) (rest : Bytes) (y : Result Message.Error Message)
    → ◌>>=◌ {B = Message × Bytes} (map_err malformed y) (λ m. ok (m, tail)) ≡ ok (msg, rest)
    → tail ≡ rest
parsed_tail tail msg rest (err w) e = cc
parsed_tail tail msg rest (ok m) e = ground arith

tail_kept :
    (tail : Bytes) (msg : Message) (rest : Bytes) (x : Result Crypto.Error Bytes)
    → (map_err undecryptable x >>= λ decrypted.
        ◌>>=◌ {B = Message × Bytes}
          (map_err malformed (read_message_from_bytes decrypted))
          (λ m. ok (m, tail)))
      ≡ ok (msg, rest)
    → tail ≡ rest
tail_kept tail msg rest (err w) e = cc
tail_kept tail msg rest (ok d) e = parsed_tail tail msg rest (read_message_from_bytes d) e

-- Reading a message takes at least its length off the stream.
pub length-rest :
    (p : Primitives) (key r : Bytes) (msg : Message) (rest : Bytes)
    → read_encrypted_message p key r ≡ ok (msg, rest)
    → length rest < length r
unfolding read_encrypted_message
length-rest p key r msg rest e =
    let ((len_buf, after_len), e1, e2) = >>=-ok _ _ e in
    let frame_len = u32 len_buf in
    let sized = length-read_full 4 r len_buf after_len (map_err-ok malformed _ e1) in
    elim (Bool-cases (leb frame_len 0 || ltb (max_payload_size + 1024) frame_len)) [
      | inl t ↦ absurd (cc)
      | inr t ↦
          let ((encrypted, tail), e3, e4) = >>=-ok _ _ (rw t at e2) in
          let taken =
            length-read_full frame_len after_len encrypted tail (map_err-ok malformed _ e3) in
          let same = tail_kept tail msg rest (decrypt p key encrypted) e4 in
          rw (← same) (omega arith)
    ]

module _ {ℓ} {S : Type ℓ} (p : Primitives) (key : Bytes) (handle : Message → S → S)
    (ends : S → Bool) where
  after_read : (Bytes → S → Option S) → S → Result Error (Message × Bytes) → Option S
  after_read again s (err e) = some s
  after_read again s (ok (msg, rest)) = again rest (handle msg s)

  -- None if the fuel did not last.
  unfoldable pub read_loop : ℕ → Bytes → S → Option S
  unfolding after_read
  read_loop zero r s = none
  read_loop (suc fuel) r s =
      let next = after_read (read_loop fuel) s (read_encrypted_message p key r) in
      if ends s then some s else next

  -- The messages one after the other, until the state ends the loop.
  abbrev pub handle_all : List Message → S → S
  handle_all [] s = s
  handle_all (msg ∷ ms) s = let rest = handle_all ms (handle msg s) in if ends s then s else rest

  read-cases :
      (r : Bytes)
      → ((e : Error) × (read_encrypted_message p key r ≡ err e))
        ⊎ ((msg : Message) × (rest : Bytes) × (read_encrypted_message p key r ≡ ok (msg, rest)))
  read-cases r = go (read_encrypted_message p key r) refl
    where
      go :
          (x : Result Error (Message × Bytes))
          → read_encrypted_message p key r ≡ x
          → ((e : Error) × (read_encrypted_message p key r ≡ err e))
            ⊎ ((msg : Message) × (rest : Bytes) × (read_encrypted_message p key r ≡ ok (msg, rest)))
      go (err e) f = inl (e, f)
      go (ok (msg, rest)) f = inr (msg, rest, f)

  read_loop-enough :
      (fuel n : ℕ) (r : Bytes) (s : S)
      → length r < fuel
      → length r < n
      → (t : S) × (read_loop fuel r s ≡ some t) × (read_loop n r s ≡ some t)
  unfolding read_loop after_read
  read_loop-enough zero n r s h k = absurd (omega arith)
  read_loop-enough (suc fuel) zero r s h k = absurd (omega arith)
  read_loop-enough (suc fuel) (suc n) r s h k = elim (Bool-cases (ends s)) [
    | inl t ↦ rw t (s, refl, refl)
    | inr t ↦ elim (read-cases r) [
      | inl (e, f) ↦ rw t (rw f (s, refl, refl))
      | inr (msg, rest, f) ↦
          let shorter = length-rest p key r msg rest f in
          rw t (rw f (read_loop-enough fuel n rest (handle msg s) (omega arith) (omega arith)))
    ]
  ]

  -- The loop ends: any fuel above the number of the bytes of the stream gives a result, and it is
  -- the same for all of them.
  pub read_loop-returns :
      (r : Bytes) (s : S) → (t : S) × ((fuel : ℕ) → length r < fuel → read_loop fuel r s ≡ some t)
  read_loop-returns r s =
      let (t, e, _) =
        read_loop-enough (suc (length r)) (suc (length r)) r s (omega arith) (omega arith) in
      (
        t,
        λ fuel h.
            let (u, f, g) = read_loop-enough (suc (length r)) fuel r s (omega arith) h in
            g ∙ (sym f ∙ e),
      )

  -- What every message keeps, the loop keeps.
  pub read_loop-keeps {κ} :
      (P : S → Type κ)
      → ((msg : Message) (s : S) → P s → P (handle msg s))
      → (fuel : ℕ) (r : Bytes) (s t : S) → read_loop fuel r s ≡ some t
      → P s
      → P t
  unfolding read_loop after_read
  read_loop-keeps P k zero r s t e h = cc
  read_loop-keeps P k (suc fuel) r s t e h = elim (Bool-cases (ends s)) [
    | inl b ↦ subst P (some-injective _ _ (rw b at e)) h
    | inr b ↦ elim (read-cases r) [
      | inl (w, f) ↦ subst P (some-injective _ _ (rw f at rw b at e)) h
      | inr (msg, rest, f) ↦
          read_loop-keeps P k fuel rest (handle msg s) t (rw f at rw b at e) (k msg s h)
    ]
  ]

module _ {ℓ} {S : Type ℓ} (p : Primitives) (correct : IsCorrect p) (key : Bytes)
    (handle : Message → S → S) (ends : S → Bool) where
  -- On a stream of frames that end with it, the loop handles exactly their messages, in their order,
  -- until its state ends it.
  pub read_loop-frames :
      (ms : List Message) (stream : Bytes) (fuel : ℕ) (s : S)
      → AreFrames p key ms stream
      → length ms < fuel
      → read_loop p key handle ends fuel stream s ≡ some (handle_all p key handle ends ms s)
  unfolding read_loop after_read read_encrypted_message
  read_loop-frames ms stream zero s f h = absurd (omega arith)
  read_loop-frames [] stream (suc fuel) s no_frames h = elim (Bool-cases (ends s)) [
    | inl t ↦ rw t refl
    | inr t ↦ rw t refl
  ]
  read_loop-frames (msg ∷ ms) stream (suc fuel) s (one_more _ _ nonce frame rest c fs) h =
      let read =
        read_encrypted_message-write_message p correct key nonce msg rest c.sendable c.nonce_sized
          c.fits c.written in
      let later = read_loop-frames ms rest fuel (handle msg s) fs (omega arith) in
      elim (Bool-cases (ends s)) [ inl t ↦ rw t refl | inr t ↦ rw t (rw (read, later) refl) ]
