-- ===== src/Store/Order.antt =====
-- The store's invariant over every sequence of calls: no nil pointers, no key twice, no panic.
use mathlib.Core.Option.{some-injective}
use clienthub.Prelude.{
  ◌≡◌, refl, subst, String, Bool, true, false, Option, none, some, List, [], ◌∷◌, ◌==◌, string_eq,
  if◌then◌else◌, lookup, insert, lookup-insert, Distinct, insert-Distinct, ok,
}
use clienthub.Proto.Payload.{ExposeRule, ForwardInfo, Codec}
use clienthub.Store.{
  Store, Clients, ClientRules, WriteOutcome, Return, Saved, returns, panics, save, get_client_rules,
  pointed, or_created, add_expose, add_forward, remove_expose, remove_forward, drop_expose,
  drop_forward, new_store, not_exist,
}
use clienthub.Store.Rules.{IsUnique, upsert-IsUnique, remove_by-IsUnique}
use clienthub.Store.Lookup.{clients-save}

-- The rules behind a pointer: it is not nil, and no name and no address stands twice.
abbrev pub AreRules : Option ClientRules → Type 0
AreRules none = ⊥
AreRules (some r) = IsUnique (λ x. x.name) r.expose × IsUnique (λ x. x.listen_addr) r.forward

pub record IsSound (s : Store) : Type 0 where
  pub distinct : Distinct s.clients
  pub rules :
      (client : String) (p : Option ClientRules) → lookup client s.clients ≡ some p → AreRules p

-- The calls of the server that change the store, each with what the write to the file did.
pub data Call : Type 0 where
  exposes : WriteOutcome → String → ExposeRule → Call
  unexposes : WriteOutcome → String → String → Call
  forwards : WriteOutcome → String → ForwardInfo → Call
  unforwards : WriteOutcome → String → String → Call

unfoldable pub step : Codec Clients → Store → Call → Return Saved
step codec s (exposes w client rule) = returns (add_expose codec w client rule s)
step codec s (unexposes w client name) = remove_expose codec w client name s
step codec s (forwards w client fwd) = returns (add_forward codec w client fwd s)
step codec s (unforwards w client addr) = remove_forward codec w client addr s

-- A panic ends the server; an error is handed back, and the server goes on.
unfoldable pub after : Return Saved → (Store → Return Store) → Return Store
after panics f = panics
after (returns t) f = f t.0

unfoldable pub run : Codec Clients → Store → List Call → Return Store
unfolding after
run codec s [] = returns s
run codec s (c ∷ cs) = after (step codec s c) (λ t. run codec t cs)

-- The rules that getOrCreate gives a caller are in order.
or_created-AreRules :
    (client : String) (s : Store)
    → IsSound s
    → AreRules (some (or_created (get_client_rules client s)))
unfolding get_client_rules
or_created-AreRules client s h = go (lookup client s.clients) (h.rules client)
  where
    go :
        (o : Option (Option ClientRules))
        → ((p : Option ClientRules) → o ≡ some p → AreRules p)
        → AreRules (some (or_created (pointed o)))
    go none h = (tt, tt)
    go (some none) h = (tt, tt)
    go (some (some r)) h = h (some r) refl

save_set-IsSound :
    (codec : Codec Clients) (w : WriteOutcome) (client : String) (r : ClientRules) (s : Store)
    → AreRules (some r)
    → IsSound s
    → IsSound (save codec w (record s { clients = insert client (some r) s.clients })).0
save_set-IsSound codec w client r s a h =
    let s' = record s { clients = insert client (some r) s.clients } in
    record {
      distinct =
          rw (clients-save codec w s') (insert-Distinct client (some r) s.clients h.distinct);
      rules = λ c p e. at c p (rw (clients-save codec w s') at e);
    }
  where
    at :
        (c : String) (p : Option ClientRules)
        → lookup c (insert client (some r) s.clients) ≡ some p
        → AreRules p
    at c p e = pick (client == c) (rw (lookup-insert client c (some r) s.clients) at e)
      where
        pick : (b : Bool) → (if b then some (some r) else lookup c s.clients) ≡ some p → AreRules p
        pick true e = subst AreRules (some-injective _ _ e) a
        pick false e = h.rules c p e

-- Each call of a store in order returns, and leaves it in order.
pub step-IsSound :
    (codec : Codec Clients) (s : Store) (c : Call)
    → IsSound s
    → (t : Saved) × (step codec s c ≡ returns t) × IsSound t.0
unfolding step add_expose add_forward remove_expose remove_forward
step-IsSound codec s (exposes w client rule) h =
    let rules = or_created (get_client_rules client s) in
    let a = or_created-AreRules client s h in
    (
      _,
      refl,
      save_set-IsSound codec w client _ s (upsert-IsUnique (λ x. x.name) rule rules.expose a.0, a.1)
          h,
    )
step-IsSound codec s (forwards w client fwd) h =
    let rules = or_created (get_client_rules client s) in
    let a = or_created-AreRules client s h in
    (
      _,
      refl,
      save_set-IsSound codec w client _ s
          (a.0, upsert-IsUnique (λ x. x.listen_addr) fwd rules.forward a.1) h,
    )
step-IsSound codec s (unexposes w client name) h = go (lookup client s.clients) (h.rules client)
  where
    go :
        (o : Option (Option ClientRules))
        → ((p : Option ClientRules) → o ≡ some p → AreRules p)
        → (t : Saved) × (drop_expose codec w client name s o ≡ returns t) × IsSound t.0
    go none g = (_, unfold drop_expose in refl, h)
    go (some none) g = absurd (g none refl)
    go (some (some r)) g = (
      _,
      unfold drop_expose in refl,
      save_set-IsSound codec w client _ s
          (remove_by-IsUnique (λ x. x.name) name r.expose (g (some r) refl).0, (g (some r) refl).1)
          h,
    )
step-IsSound codec s (unforwards w client addr) h = go (lookup client s.clients) (h.rules client)
  where
    go :
        (o : Option (Option ClientRules))
        → ((p : Option ClientRules) → o ≡ some p → AreRules p)
        → (t : Saved) × (drop_forward codec w client addr s o ≡ returns t) × IsSound t.0
    go none g = (_, unfold drop_forward in refl, h)
    go (some none) g = absurd (g none refl)
    go (some (some r)) g = (
      _,
      unfold drop_forward in refl,
      save_set-IsSound codec w client _ s
          (
            (g (some r) refl).0,
            remove_by-IsUnique (λ x. x.listen_addr) addr r.forward (g (some r) refl).1,
          )
          h,
    )

-- A store with no file yet is in order.
pub new_store-IsSound :
    (codec : Codec Clients) → (s : Store) × (new_store codec not_exist ≡ ok s) × IsSound s
unfolding new_store
new_store-IsSound codec = (_, refl, record { distinct = tt; rules = λ client p e. cc })
