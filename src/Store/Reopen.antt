-- ===== src/Store/Reopen.antt =====
-- A server that is started again on the file of the store has the rules that it had.
use clienthub.Prelude.{
  ◌≡◌, refl, subst, String, Option, none, some, List, [], ◌∷◌, lookup, string_eq, ok, All,
}
use clienthub.Proto.Message.{Bytes}
use clienthub.Proto.Payload.{Codec, IsFaithful}
use clienthub.Store.{
  Store, Clients, ClientRules, WriteOutcome, written, Return, Saved, returns, panics, save,
  write_file, ReadOutcome, contents, not_exist, new_store, add_expose, add_forward, remove_expose,
  remove_forward, drop_expose, drop_forward,
}
use clienthub.Store.Order.{Call, exposes, unexposes, forwards, unforwards, step, run, after}

-- What os.ReadFile finds.
abbrev pub on_disk : Option Bytes → ReadOutcome
on_disk none = not_exist
on_disk (some b) = contents b

returns-injective : {s t : Store} → returns s ≡ returns t → s ≡ t
returns-injective e = cc e

abbrev pub IsDurable : Codec Clients → Store → Type 0
IsDurable codec s = new_store codec (on_disk s.file) ≡ ok s

abbrev pub outcome : Call → WriteOutcome
outcome (exposes w client rule) = w
outcome (unexposes w client name) = w
outcome (forwards w client fwd) = w
outcome (unforwards w client addr) = w

module _ (codec : Codec Clients) (f : IsFaithful codec) where
  save-IsDurable : (s : Store) → IsDurable codec (save codec written s).0
  unfolding save new_store
  save-IsDurable s = let (b, e, g) = f.unmarshal-marshal s.clients in rw (e, write_file) (rw g refl)

  -- What holds of the state that a call returns.
  abbrev Ends : Return Saved → Type 0
  Ends panics = Unit
  Ends (returns t) = IsDurable codec t.0

  drop_expose-Ends :
      (client name : String) (s : Store) (o : Option (Option ClientRules))
      → IsDurable codec s
      → Ends (drop_expose codec written client name s o)
  unfolding drop_expose
  drop_expose-Ends client name s none h = h
  drop_expose-Ends client name s (some none) h = tt
  drop_expose-Ends client name s (some (some r)) h = save-IsDurable _

  drop_forward-Ends :
      (client addr : String) (s : Store) (o : Option (Option ClientRules))
      → IsDurable codec s
      → Ends (drop_forward codec written client addr s o)
  unfolding drop_forward
  drop_forward-Ends client addr s none h = h
  drop_forward-Ends client addr s (some none) h = tt
  drop_forward-Ends client addr s (some (some r)) h = save-IsDurable _

  step-Ends :
      (s : Store) (c : Call) → outcome c ≡ written → IsDurable codec s → Ends (step codec s c)
  unfolding step add_expose add_forward remove_expose remove_forward
  step-Ends s (exposes w client rule) e h = rw e (save-IsDurable _)
  step-Ends s (forwards w client fwd) e h = rw e (save-IsDurable _)
  step-Ends s (unexposes w client name) e h =
      rw e (drop_expose-Ends client name s (lookup client s.clients) h)
  step-Ends s (unforwards w client addr) e h =
      rw e (drop_forward-Ends client addr s (lookup client s.clients) h)

  after-Ends :
      (r : Return Saved) (k : Store → Return Store) {t : Store}
      → Ends r
      → ((u : Store) → IsDurable codec u → k u ≡ returns t → IsDurable codec t)
      → after r k ≡ returns t
      → IsDurable codec t
  unfolding after
  after-Ends panics k h ih e = cc e
  after-Ends (returns u) k h ih e = ih u.0 h e

  -- If every write to the file succeeded, loading the file again gives the store that the calls left,
  -- with the file as it is.
  pub run-IsDurable :
      (s : Store) (cs : List Call) {t : Store}
      → All (λ c. outcome c ≡ written) cs
      → IsDurable codec s
      → run codec s cs ≡ returns t
      → new_store codec (on_disk t.file) ≡ ok t
  unfolding run
  run-IsDurable s [] {t} a h e = subst (IsDurable codec) (returns-injective e) h
  run-IsDurable s (c ∷ cs) {t} a h e =
      after-Ends (step codec s c) (λ u. run codec u cs) (step-Ends s c a.0 h)
        (λ u k g. run-IsDurable u cs a.1 k g) e
