-- ===== src/Bridge/Hub/Steps.antt =====
-- The calls of an application on a hub, and the returns of its runs, in any order.
use clienthub.Prelude.{
  ℕ, ◌≡◌, ◌⊎◌, refl, ap, subst, String, ◌||◌, Option, none, some, List, ◌==◌, string_eq, nat_eq,
  lookup, insert-cases, ℤ, Return, returns, panics, Result, ok, err, arith, inl, inr, Bool-cases,
}
use clienthub.Config.{ClientConfig}
use clienthub.Bridge.Handles.{HandleRegistry, get, remove}
use clienthub.Bridge.Callbacks.{Callbacks, Fired}
use clienthub.Bridge.Hub.{
  Hub, new_hub, ClientHandle, Object, Object.client_at, Run, Json, client_create, client_start,
  client_stop, client_destroy, destroyed, run_returned, created, registered, at_client, on_client,
  with_defaults,
}
use clienthub.Bridge.Hub.Life.{IsAmong}
use clienthub.Bridge.Hub.Invariant.{
  IsSteady, started-IsSteady, stopped-IsSteady, run_returned-IsSteady,
}

pub data Step : Hub → Hub → Type 0 where
  creates :
      (json : Json) (config_json : String) (h : Hub) → Step h (client_create json config_json h).0.0
  starts :
      (handle : ℤ) (h : Hub) (t : Hub × List Fired) → client_start handle h ≡ returns t → Step h t.0
  stops : (handle : ℤ) (h t : Hub) → client_stop handle h ≡ returns t → Step h t
  destroys : (handle : ℤ) (h t : Hub) → client_destroy handle h ≡ returns t → Step h t
  run_returns :
      (run : Run) (why : Option String) (h : Hub)
      → IsAmong run h.runs
      → Step h (run_returned run why h).0
  -- A manager is created, an object is taken out, or all are.
  handles : (h : Hub) (r : HandleRegistry Object) → Step h (record h { registry = r })
  sets : (h : Hub) (cb : Callbacks) → Step h (record h { callbacks = cb })

pub data Reaches (h : Hub) : Hub → Type 0 where
  here : Reaches h h
  next : {t u : Hub} → Reaches h t → Step t u → Reaches h u

-- Only the clients, the contexts and the runs matter.
frame-IsSteady :
    (h : Hub) (r : HandleRegistry Object) (cb : Callbacks)
    → IsSteady h
    → IsSteady (record h { registry = r; callbacks = cb })
frame-IsSteady h r cb s = record {
  cancels = λ a ch c e f.
      let i = s.cancels a ch c e f in
      record { alive = i.alive; run = i.run; is_run = i.is_run; at = i.at; under = i.under };
  contexts = s.contexts;
  cancelled = s.cancelled;
  alone = s.alone;
  addresses = s.addresses;
}

registered-IsSteady : (cfg : ClientConfig) (h : Hub) → IsSteady h → IsSteady (registered cfg h).0
unfolding registered
registered-IsSteady cfg h s = record {
  cancels = λ a ch c e f. elim (insert-cases h.next_address a _ h.clients e) [
    | inl (t, u) ↦ absurd (cc (ap (λ x. x.cancel) u, f))
    | inr (t, e') ↦
        let i = s.cancels a ch c e' f in
        record { alive = i.alive; run = i.run; is_run = i.is_run; at = i.at; under = i.under }
  ];
  contexts = s.contexts;
  cancelled = s.cancelled;
  alone = s.alone;
  addresses = λ a ch e. elim (insert-cases h.next_address a _ h.clients e) [
    | inl (t, u) ↦ omega arith
    | inr (t, e') ↦ ground (arith, s.addresses a ch e')
  ];
}

created-IsSteady :
    (o : Result String ClientConfig) (h : Hub) → IsSteady h → IsSteady (created o h).0.0
unfolding created
created-IsSteady (err e) h s = s
created-IsSteady (ok cfg) h s =
    elim (Bool-cases (cfg.server_addr == "" || cfg.client_name == "" || cfg.secret == "")) [
      | inl e ↦ rw e s
      | inr e ↦ rw e (registered-IsSteady (with_defaults cfg) h s)
    ]

returned : {A : Type 0} (x y : A) → returns x ≡ returns y → x ≡ y
returned x y e = ground arith

-- The two lookups of a call on a client.
at_client-cases :
    {A : Type 0} (missing : A) (f : ℕ → ClientHandle → Return A) (h : Hub) (o : Option Object)
    (t : A)
    → at_client missing f h o ≡ returns t
    → (missing ≡ t)
      ⊎ ((a : ℕ) × (ch : ClientHandle) × (lookup a h.clients ≡ some ch) × (f a ch ≡ returns t))
at_client-cases missing f h none t e = inl (ground arith)
at_client-cases missing f h (some (client_at a)) t e = go (lookup a h.clients) refl e
  where
    go :
        (o : Option ClientHandle)
        → lookup a h.clients ≡ o
        → on_client (f a) o ≡ returns t
        → (missing ≡ t)
          ⊎ ((b : ℕ) × (ch : ClientHandle) × (lookup b h.clients ≡ some ch) × (f b ch ≡ returns t))
    go none l e = cc
    go (some ch) l e = inr (a, ch, l, e)
at_client-cases missing f h (some (Object.manager_of m)) t e = cc

client_start-IsSteady :
    (handle : ℤ) (h : Hub) (t : Hub × List Fired)
    → client_start handle h ≡ returns t
    → IsSteady h
    → IsSteady t.0
unfolding client_start
client_start-IsSteady handle h t e s = elim (at_client-cases _ _ h (get handle h.registry) t e) [
  | inl same ↦ subst (λ x. IsSteady x.0) same s
  | inr (a, ch, l, f) ↦
      subst (λ x. IsSteady x.0) (returned _ _ f) (started-IsSteady h s handle a ch l ch.cancel)
]

client_stop-IsSteady :
    (handle : ℤ) (h t : Hub) → client_stop handle h ≡ returns t → IsSteady h → IsSteady t
unfolding client_stop
client_stop-IsSteady handle h t e s = elim (at_client-cases _ _ h (get handle h.registry) t e) [
  | inl same ↦ subst IsSteady same s
  | inr (a, ch, l, f) ↦ subst IsSteady (returned _ _ f) (stopped-IsSteady h s a ch l ch.cancel refl)
]

client_destroy-IsSteady :
    (handle : ℤ) (h t : Hub) → client_destroy handle h ≡ returns t → IsSteady h → IsSteady t
unfolding client_destroy
client_destroy-IsSteady handle h t e s = go (client_stop handle h) refl e
  where
    go : (r : Return Hub) → client_stop handle h ≡ r → destroyed handle r ≡ returns t → IsSteady t
    go panics f e = cc
    go (returns u) f e = subst IsSteady (returned _ _ e) (
        frame-IsSteady u (remove handle u.registry) u.callbacks
          (client_stop-IsSteady handle h u f s))

Step-IsSteady : {h t : Hub} → Step h t → IsSteady h → IsSteady t
unfolding client_create
Step-IsSteady (Step.creates json config_json h) s =
    created-IsSteady (json.client_config config_json) h s
Step-IsSteady (Step.starts handle h t e) s = client_start-IsSteady handle h t e s
Step-IsSteady (Step.stops handle h t e) s = client_stop-IsSteady handle h _ e s
Step-IsSteady (Step.destroys handle h t e) s = client_destroy-IsSteady handle h _ e s
Step-IsSteady (Step.run_returns run why h i) s = run_returned-IsSteady h s run why i
Step-IsSteady (Step.handles h r) s = frame-IsSteady h r h.callbacks s
Step-IsSteady (Step.sets h cb) s = frame-IsSteady h h.registry cb s

-- Whatever an application calls on a hub, and whenever runs return, a client whose Cancel is set has
-- a run under that context, which was not cancelled; no two runs share a context, and every context
-- and address is one that was given out.
pub Reaches-IsSteady : {h t : Hub} → Reaches h t → IsSteady h → IsSteady t
Reaches-IsSteady here s = s
Reaches-IsSteady (next r st) s = Step-IsSteady st (Reaches-IsSteady r s)

-- So it is from the start.
pub new_hub-IsSteady : IsSteady new_hub
new_hub-IsSteady = record {
  cancels = λ a ch c e f. cc;
  contexts = λ r i. absurd i;
  cancelled = λ c e. cc;
  alone = λ q r i j e. absurd i;
  addresses = λ a ch e. cc;
}
