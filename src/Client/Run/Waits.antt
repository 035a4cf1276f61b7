-- ===== src/Client/Run/Waits.antt =====
-- That Run goes on, and how long it waits.
use clienthub.Prelude.{
  ℕ, zero, suc, ◌<◌, ◌≡◌, refl, ap, String, true, Option, none, some, List, [], ◌∷◌, ◌++◌, ◌^◌, min,
  length, inl, inr, Bool-cases,
}
use clienthub.Proto.Message.{Bytes, Message}
use clienthub.Crypto.{Primitives}
use clienthub.Tunnel.Stream.{read_loop-returns}
use clienthub.Client.State.{Client, Library, RegisterError, register}
use clienthub.Client.Session.{AuthError, authenticate, start_forwards}
use clienthub.Client.Reconnect.{backoff_after, next_backoff, max_backoff, drain}
use clienthub.Client.Reconnect.Drained.{backoff_after-doubles}
use clienthub.Client.Run.{
  Attempt, Ended, RunError, run_once, dialed, authenticated, registered, loop_ended, on_message,
  is_done, run, run_from, again,
}

-- The waiting times in seconds from the n-th on, as many as are asked for: they double, up to a
-- minute.
abbrev pub waits_from : ℕ → ℕ → List ℕ
waits_from n zero = []
waits_from n (suc k) = min max_backoff (2 ^ suc n) ∷ waits_from (suc n) k

module _ (p : Primitives) (key : Bytes) (lib : Library) where
  registered-returns :
      (a : Attempt) (fuel : ℕ) (c : Client) (ms : List Message)
      (r : List Message × Option RegisterError)
      → length a.stream < fuel
      → (t : Ended) × (registered p key lib a fuel c ms r ≡ some t)
  unfolding registered
  registered-returns a fuel c ms (ws, some e) h = (_, refl)
  registered-returns a fuel c ms (ws, none) h =
      let (t, e) =
        read_loop-returns p key (on_message p key lib a) (is_done p key lib a) a.stream
          (start_forwards lib a.listen c, ms ++ ws, 0) in
      (_, ap (loop_ended p key lib a) (e fuel h))

  authenticated-returns :
      (a : Attempt) (fuel : ℕ) (c : Client) (r : List Message × Option AuthError)
      → length a.stream < fuel
      → (t : Ended) × (authenticated p key lib a fuel c r ≡ some t)
  unfolding authenticated
  authenticated-returns a fuel c (ms, some e) h = (_, refl)
  authenticated-returns a fuel c (ms, none) h =
      registered-returns a fuel c ms (register lib a.net c) h

  -- An attempt ends, with fuel above the number of the bytes that the server sends.
  pub run_once-returns :
      (a : Attempt) (fuel : ℕ) (c : Client)
      → length a.stream < fuel
      → (t : Ended) × (run_once p key lib a fuel c ≡ some t)
  unfolding run_once dialed
  run_once-returns a fuel c h = go a.dial
    where
      go : (o : Option String) → (t : Ended) × (dialed p key lib a fuel c o ≡ some t)
      go (some e) = (_, refl)
      go none =
          let c' = record c { connected = true } in
          authenticated-returns a fuel c' (authenticate p key lib a.net a.answer c') h

  abbrev pub HasFuel : ℕ → List Attempt → Type 0
  HasFuel fuel [] = Unit
  HasFuel fuel (a ∷ attempts) = (length a.stream < fuel) × HasFuel fuel attempts

  run_from-waits :
      (fuel n : ℕ) (attempts : List Attempt) (c : Client)
      → HasFuel fuel attempts
      → (d : Client) × (k : ℕ) × (run_from p key lib fuel attempts (backoff_after n) c
          ≡ some (d, waits_from n k))
  unfolding run_from backoff_after
  run_from-waits fuel n [] c h = (c, 0, refl)
  run_from-waits fuel n (a ∷ attempts) c h =
      let ((d, ms, o), e) = run_once-returns a fuel c h.0 in
      let (u, k, f) = run_from-waits fuel (suc n) attempts (drain d) h.1 in rw e (go d ms o u k f)
    where
      go :
          (d : Client) (ms : List Message) (o : Option RunError) (u : Client) (k : ℕ)
          → run_from p key lib fuel attempts (next_backoff (backoff_after n)) (drain d)
            ≡ some (u, waits_from (suc n) k)
          → (v : Client) × (j : ℕ) × (again p key lib a
                (backoff_after n)
                (run_from p key lib fuel attempts)
                (some (d, ms, o))
              ≡ some (v, waits_from n j))
      go d ms none u k f = (d, 0, refl)
      go d ms (some w) u k f = elim (Bool-cases a.done) [
        | inl t ↦ (d, 0, rw t refl)
        | inr t ↦ elim (Bool-cases a.interrupted) [
          | inl i ↦ (drain d, 0, rw (t, i) refl)
          | inr i ↦ (
            u,
            suc k,
            rw (t, i)
                (rw f (ap (λ b. some (u, b ∷ waits_from (suc n) k)) (backoff_after-doubles n))),
          )
        ]
      ]

  -- Run comes to an end of the attempts that it is given, or returns before, if the fuel is above the
  -- number of the bytes that each of them brings: it waits two seconds, then four, and so on, up to
  -- a minute.
  pub run-waits :
      (fuel : ℕ) (attempts : List Attempt) (c : Client)
      → HasFuel fuel attempts
      → (d : Client) × (k : ℕ) × (run p key lib fuel attempts c ≡ some (d, waits_from 0 k))
  unfolding run backoff_after
  run-waits fuel attempts c h = run_from-waits fuel 0 attempts c h
