-- ===== src/Bridge/Hub/Invariant.antt =====
-- What holds of a hub, whatever the application calls and whenever the runs return.
use mathlib.Core.Option.{some-injective}
use clienthub.Prelude.{
  ℕ, ◌<◌, ◌≡◌, ◌≢◌, ◌⊎◌, refl, sym, ap, ◌∙◌, String, Bool, true, false, Option, none, some, List,
  [], ◌∷◌, Map, lookup, ◌==◌, ==_iff, nat_eq, int_eq, insert-cases, any, ℤ, arith, inl, inr,
  Bool-cases,
}
use clienthub.Bridge.Hub.{Hub, ClientHandle, Run, run_returned, started, stopped, ended, without}
use clienthub.Bridge.Hub.Life.{IsAmong, without-IsAmong}

abbrev pub among : ℕ → List ℕ → Bool
among n xs = any (λ x. x == n) xs

-- A client whose Cancel is set has a run, under a context that was not cancelled.
pub record IsRunning (h : Hub) (address context : ℕ) : Type 0 where
  pub alive : among context h.cancelled ≡ false
  pub run : Run
  pub is_run : IsAmong run h.runs
  pub at : run.address ≡ address
  pub under : run.context ≡ context

pub record IsSteady (h : Hub) : Type 0 where
  pub cancels :
      (a : ℕ) (ch : ClientHandle) (c : ℕ)
      → lookup a h.clients ≡ some ch
      → ch.cancel ≡ some c
      → IsRunning h a c
  pub contexts : (r : Run) → IsAmong r h.runs → r.context < h.next_context
  pub cancelled : (c : ℕ) → among c h.cancelled ≡ true → c < h.next_context
  pub alone : (q r : Run) → IsAmong q h.runs → IsAmong r h.runs → q.context ≡ r.context → q ≡ r
  pub addresses : (a : ℕ) (ch : ClientHandle) → lookup a h.clients ≡ some ch → a < h.next_address

module _ (h : Hub) (s : IsSteady h) where
  -- Two clients do not share a context.
  apart : (a b c d : ℕ) → IsRunning h a c → IsRunning h b d → c ≡ d → a ≡ b
  apart a b c d i j e =
      let same : i.run ≡ j.run =
        s.alone i.run j.run i.is_run j.is_run (i.under ∙ (e ∙ sym j.under)) in
      sym i.at ∙ (ap (λ r. r.address) same ∙ j.at)

  pub started-IsSteady :
      (handle : ℤ) (a : ℕ) (ch : ClientHandle)
      → lookup a h.clients ≡ some ch
      → (o : Option ℕ) → IsSteady (started handle h a ch o).0
  started-IsSteady handle a ch e (some c) = s
  started-IsSteady handle a ch e none =
      let run : Run = record { handle = handle; address = a; context = h.next_context } in
      let fresh : among h.next_context h.cancelled ≡ false =
        elim (Bool-cases (among h.next_context h.cancelled)) [
          | inl t ↦ absurd (ground (arith, s.cancelled h.next_context))
          | inr t ↦ t
        ] in
      record {
        cancels = λ b dh c f g. elim (insert-cases a b _ h.clients f) [
          | inl (t, u) ↦
              let under : h.next_context ≡ c = some-injective _ _ (ap (λ x. x.cancel) u ∙ g) in
              record {
                alive = rw (← under) fresh;
                run = run;
                is_run = inl refl;
                at = t;
                under = under;
              }
          | inr (t, f') ↦
              let r = s.cancels b dh c f' g in
              record {
                alive = r.alive;
                run = r.run;
                is_run = inr r.is_run;
                at = r.at;
                under = r.under;
              }
        ];
        contexts = λ r i. elim i [
          | inl t ↦ ground (arith, ap (λ x. x.context) t)
          | inr j ↦ ground (arith, s.contexts r j)
        ];
        cancelled = λ c f. ground (arith, s.cancelled c);
        alone = λ q r i j f. elim i [
          | inl t ↦ elim j [
            | inl u ↦ t ∙ sym u
            | inr u ↦ absurd (ground (arith, ap (λ x. x.context) t, s.contexts r u))
          ]
          | inr t ↦ elim j [
            | inl u ↦ absurd (ground (arith, ap (λ x. x.context) u, s.contexts q t))
            | inr u ↦ s.alone q r t u f
          ]
        ];
        addresses = λ b dh f. elim (insert-cases a b _ h.clients f) [
          | inl (t, u) ↦ rw (← t) (s.addresses a ch e)
          | inr (t, f') ↦ s.addresses b dh f'
        ];
      }

  pub stopped-IsSteady :
      (a : ℕ) (ch : ClientHandle)
      → lookup a h.clients ≡ some ch
      → (o : Option ℕ) → ch.cancel ≡ o
      → IsSteady (stopped h a ch o)
  stopped-IsSteady a ch e none k = s
  stopped-IsSteady a ch e (some d) k =
      let mine = s.cancels a ch d e k in
      record {
        cancels = λ b dh c f g. elim (insert-cases a b _ h.clients f) [
          | inl (t, u) ↦ absurd (cc (ap (λ x. x.cancel) u, g))
          | inr (t, f') ↦
              let r = s.cancels b dh c f' g in
              record {
                alive = ground (arith, ==_iff d c, r.alive, t, apart a b d c mine r);
                run = r.run;
                is_run = r.is_run;
                at = r.at;
                under = r.under;
              }
        ];
        contexts = s.contexts;
        cancelled = λ c f.
            ground (arith, ==_iff d c, s.cancelled c, s.contexts mine.run mine.is_run, mine.under);
        alone = s.alone;
        addresses = λ b dh f. elim (insert-cases a b _ h.clients f) [
          | inl (t, u) ↦ rw (← t) (s.addresses a ch e)
          | inr (t, f') ↦ s.addresses b dh f'
        ];
      }

  -- What is left of the runs was among them.
  left : (c : ℕ) (r : Run) (rs : List Run) → IsAmong r (without c rs) → IsAmong r rs
  left c r [] i = i
  left c r (q ∷ rs) i = elim (Bool-cases (q.context == c)) [
    | inl t ↦ inr (left c r rs (rw t at i))
    | inr t ↦
        let j : (r ≡ q) ⊎ IsAmong r (without c rs) = rw t at i in
        elim j [ inl same ↦ inl same | inr k ↦ inr (left c r rs k) ]
  ]

  -- The run of another client is still there.
  survives :
      (run : Run) (b c : ℕ) (cancelled : IsRunning h b c)
      → IsAmong run h.runs
      → run.address ≢ b
      → IsAmong cancelled.run (without run.context h.runs)
  survives run b c r i ne =
      without-IsAmong run.context r.run h.runs
        (λ e. ne (ap (λ x. x.address) (s.alone run r.run i r.is_run e) ∙ r.at)) r.is_run

  pub run_returned-IsSteady :
      (run : Run) (why : Option String) → IsAmong run h.runs → IsSteady (run_returned run why h).0
  unfolding run_returned
  run_returned-IsSteady run why i = record {
    cancels = λ b dh c f g.
        let (ne, f') = kept b dh c f g in
        let r = s.cancels b dh c f' g in
        record {
          alive = r.alive;
          run = r.run;
          is_run = survives run b c r i ne;
          at = r.at;
          under = r.under;
        };
    contexts = λ r j. s.contexts r (left run.context r h.runs j);
    cancelled = s.cancelled;
    alone = λ q r j k f. s.alone q r (left run.context q h.runs j) (left run.context r h.runs k) f;
    addresses = λ b dh f. known b dh f;
  }
    where
      written : Option ClientHandle → Map ℕ ClientHandle
      written o = ended o run.address h.clients

      kept_by :
          (o : Option ClientHandle)
          → lookup run.address h.clients ≡ o
          → (b : ℕ) (dh : ClientHandle) (c : ℕ) → lookup b (written o) ≡ some dh
          → dh.cancel ≡ some c
          → (run.address ≢ b) × (lookup b h.clients ≡ some dh)
      kept_by none e b dh c f g = (λ same. cc (e, f, same), f)
      kept_by (some ch) e b dh c f g = elim (insert-cases run.address b _ h.clients f) [
        | inl (t, u) ↦ absurd (cc (ap (λ x. x.cancel) u, g))
        | inr (t, f') ↦ (t, f')
      ]

      kept :
          (b : ℕ) (dh : ClientHandle) (c : ℕ)
          → lookup b (written (lookup run.address h.clients)) ≡ some dh
          → dh.cancel ≡ some c
          → (run.address ≢ b) × (lookup b h.clients ≡ some dh)
      kept = kept_by _ refl

      known_by :
          (o : Option ClientHandle)
          → lookup run.address h.clients ≡ o
          → (b : ℕ) (dh : ClientHandle) → lookup b (written o) ≡ some dh
          → b < h.next_address
      known_by none e b dh f = s.addresses b dh f
      known_by (some ch) e b dh f = elim (insert-cases run.address b _ h.clients f) [
        | inl (t, u) ↦ rw (← t) (s.addresses run.address ch e)
        | inr (t, f') ↦ s.addresses b dh f'
      ]

      known :
          (b : ℕ) (dh : ClientHandle)
          → lookup b (written (lookup run.address h.clients)) ≡ some dh
          → b < h.next_address
      known = known_by _ refl
