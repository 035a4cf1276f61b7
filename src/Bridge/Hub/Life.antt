-- ===== src/Bridge/Hub/Life.antt =====
-- The runs of a client: how they start and stop, and which of them ClientStop can reach.
use clienthub.Prelude.{
  ℕ, ◌≡◌, ◌≢◌, ◌⊎◌, refl, sym, ap, ◌∙◌, String, Option, none, some, List, [], ◌∷◌, lookup, insert,
  ◌==◌, ==_iff, ==_refl, nat_eq, int_eq, lookup-insert, ℤ, returns, arith, inl, inr, Bool-cases,
}
use clienthub.Bridge.Handles.{get}
use clienthub.Bridge.Callbacks.{Fired, status_connecting, status_disconnected}
use clienthub.Bridge.Hub.{
  Hub, ClientHandle, Object.client_at, Run, client_start, client_stop, run_returned, started,
  stopped, without,
}

-- The run is one of them.
abbrev pub IsAmong : Run → List Run → Type 0
IsAmong r [] = ⊥
IsAmong r (s ∷ rs) = (r ≡ s) ⊎ IsAmong r rs

-- The handle stands for this client.
pub record Has (handle : ℤ) (address : ℕ) (ch : ClientHandle) (h : Hub) : Type 0 where
  pub object : get handle h.registry ≡ some (client_at address)
  pub client : lookup address h.clients ≡ some ch

module _ (handle : ℤ) (address : ℕ) (ch : ClientHandle) (h : Hub)
    (has : Has handle address ch h) where
  client_start-started : client_start handle h ≡ returns (started handle h address ch ch.cancel)
  unfolding client_start
  client_start-started = rw has.object (rw has.client refl)

  pub client_stop-stopped : client_stop handle h ≡ returns (stopped h address ch ch.cancel)
  unfolding client_stop
  client_stop-stopped = rw has.object (rw has.client refl)

  -- Starting a client that runs, and stopping one that does not, changes nothing.
  pub client_start_running : (c : ℕ) → ch.cancel ≡ some c → client_start handle h ≡ returns (h, [])
  client_start_running c e =
      client_start-started ∙ ap (λ o. returns (started handle h address ch o)) e

  pub client_stop_stopped : ch.cancel ≡ none → client_stop handle h ≡ returns h
  client_stop_stopped e = client_stop-stopped ∙ ap (λ o. returns (stopped h address ch o)) e

  -- A client that does not run starts.
  pub begins : ch.cancel ≡ none → client_start handle h ≡ returns (started handle h address ch none)
  begins e = client_start-started ∙ ap (λ o. returns (started handle h address ch o)) e

-- Taking a run away leaves those under other contexts.
pub without-IsAmong :
    (c : ℕ) (r : Run) (rs : List Run) → c ≢ r.context → IsAmong r rs → IsAmong r (without c rs)
without-IsAmong c r [] ne i = absurd i
without-IsAmong c r (q ∷ rs) ne i = elim (Bool-cases (q.context == c)) [
  | inl e ↦ rw e (elim i [
    | inl same ↦ absurd (ne (sym ((==_iff q.context c).0 e) ∙ ap (λ x. x.context) (sym same)))
    | inr later ↦ without-IsAmong c r rs ne later
  ])
  | inr e ↦
      rw e (elim i [ inl same ↦ inl same | inr later ↦ inr (without-IsAmong c r rs ne later) ])
]

-- The state of a client that is written is read back.
pub insert-Has :
    (handle : ℤ) (address : ℕ) (ch : ClientHandle) (h t : Hub)
    → get handle h.registry ≡ some (client_at address)
    → t.registry ≡ h.registry
    → t.clients ≡ insert address ch h.clients
    → Has handle address ch t
insert-Has handle address ch h t o r e = record {
  object = ap (λ x. get handle x) r ∙ o;
  client = rw e (ground (arith, lookup-insert address address ch h.clients, ==_refl address));
}

module _ (handle : ℤ) (address : ℕ) (ch : ClientHandle) (h : Hub)
    (has : Has handle address ch h) where
  -- Starting a client that does not run starts one run of it, under a new context; stopping it then
  -- cancels that context and no other.
  pub client_stop-client_start :
      ch.cancel ≡ none
      → let run : Run = record { handle = handle; address = address; context = h.next_context } in
        (t : Hub) × (u : Hub) × ((fired : List Fired) × (client_start handle h
            ≡ returns (t, fired)))
        × (client_stop handle t ≡ returns u)
        × (t.runs ≡ run ∷ h.runs)
        × (u.cancelled ≡ h.next_context ∷ h.cancelled)
        × (u.runs ≡ t.runs)
  client_stop-client_start e =
      let t = (started handle h address ch none).0 in
      let running = record ch { cancel = some h.next_context; status = status_connecting } in
      let has' = insert-Has handle address running h t has.object refl refl in
      (
        t,
        _,
        (_, begins handle address ch h has e),
        client_stop-stopped handle address running t has',
        refl,
        refl,
        refl,
      )

  -- After a client was stopped and started again, the return of its first run takes the second one
  -- out of reach: it goes on under a context that is not cancelled, ClientStop changes nothing, and
  -- ClientStart starts another run beside it.
  pub run_returned_unreachable :
      (old new : Run) (why : Option String)
      → old.address ≡ address
      → old.context ≢ new.context
      → IsAmong new h.runs
      → let t = (run_returned old why h).0 in
        IsAmong new t.runs
        × (t.cancelled ≡ h.cancelled)
        × (client_stop handle t ≡ returns t)
        × ((u : Hub) × ((fired : List Fired) × (client_start handle t ≡ returns (u, fired)))
            × (u.runs
                ≡ record { handle = handle; address = address; context = t.next_context } ∷ t.runs))
  unfolding run_returned
  run_returned_unreachable old new why eo ne i =
      let t = (run_returned old why h).0 in
      let idle = record ch { cancel = none; status = status_disconnected } in
      let cleared : t.clients ≡ insert address idle h.clients = rw eo (rw has.client refl) in
      let has' = insert-Has handle address idle h t has.object refl cleared in
      (
        without-IsAmong old.context new h.runs ne i,
        refl,
        client_stop_stopped handle address idle t has' refl,
        (_, (_, begins handle address idle t has' refl), refl),
      )
