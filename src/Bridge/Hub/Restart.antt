-- ===== src/Bridge/Hub/Restart.antt =====
-- A client that is stopped and started again before its first run has returned.
use clienthub.Prelude.{
  ℕ, ◌+◌, ◌≡◌, refl, false, String, Option, none, some, ◌∷◌, ==_iff, nat_eq, ℤ, returns, List,
  arith, inl, inr, Bool-cases,
}
use clienthub.Bridge.Callbacks.{Fired, status_connecting}
use clienthub.Bridge.Hub.{
  Hub, ClientHandle, Run, client_start, client_stop, run_returned, started, stopped,
}
use clienthub.Bridge.Hub.Life.{
  IsAmong, Has, insert-Has, begins, client_stop-stopped, run_returned_unreachable,
}
use clienthub.Bridge.Hub.Invariant.{IsSteady, among}

module _ (handle : ℤ) (address : ℕ) (ch : ClientHandle) (h : Hub)
    (has : Has handle address ch h) where
  -- On a hub in order, a client that does not run is started, stopped and started again, and then its
  -- first run returns. The second run goes on, under a context that is not cancelled; but ClientStop
  -- now changes nothing, and ClientStart starts a third run beside it.
  pub restarted_run_unreachable :
      (why : Option String)
      → IsSteady h
      → ch.cancel ≡ none
      → let run : ℕ → Run = λ c. record { handle = handle; address = address; context = c } in
        let first = run h.next_context in
        let second = run (h.next_context + 1) in
        (t : Hub) × (u : Hub) × (v : Hub) × ((fired : List Fired) × (client_start handle h
            ≡ returns (t, fired)))
        × (client_stop handle t ≡ returns u)
        × ((fired : List Fired) × (client_start handle u ≡ returns (v, fired)))
        × IsAmong first v.runs
        × IsAmong second v.runs
        × (let w = (run_returned first why v).0 in
            IsAmong second w.runs
            × (among second.context w.cancelled ≡ false)
            × (client_stop handle w ≡ returns w)
            × ((x : Hub) × ((fired : List Fired) × (client_start handle w ≡ returns (x, fired)))
                × (x.runs ≡ run (h.next_context + 1 + 1) ∷ w.runs)))
  unfolding run_returned
  restarted_run_unreachable why steady idle =
      let n = h.next_context in
      let t = (started handle h address ch none).0 in
      let running = record ch { cancel = some n; status = status_connecting } in
      let has_t = insert-Has handle address running h t has.object refl refl in
      let u = stopped t address running (some n) in
      let halted = record running { cancel = none } in
      let has_u = insert-Has handle address halted t u has.object refl refl in
      let v = (started handle u address halted none).0 in
      let again = record halted { cancel = some (n + 1); status = status_connecting } in
      let has_v = insert-Has handle address again u v has.object refl refl in
      let first : Run = record { handle = handle; address = address; context = n } in
      let second : Run = record { handle = handle; address = address; context = n + 1 } in
      let (on, _, stuck, third) =
        run_returned_unreachable handle address again v has_v first second why refl
          (λ e. omega (arith, e)) (inl refl) in
      let fresh : among (n + 1) (n ∷ h.cancelled) ≡ false =
        elim (Bool-cases (among (n + 1) h.cancelled)) [
          | inl e ↦ absurd (ground (arith, steady.cancelled (n + 1)))
          | inr e ↦ ground (arith, ==_iff n (n + 1))
        ] in
      (
        t,
        u,
        v,
        (_, begins handle address ch h has idle),
        client_stop-stopped handle address running t has_t,
        (_, begins handle address halted u has_u refl),
        inr (inl refl),
        inl refl,
        (on, fresh, stuck, third),
      )
