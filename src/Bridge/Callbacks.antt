-- ===== src/Bridge/Callbacks.antt =====
-- pkg/cbridge/callbacks.go: the functions that the application has set. A function is a number, and a
-- call of it is an entry of a list.
use clienthub.Prelude.{ℕ, String, Option, none, some, List, [], ◌∷◌, ℤ}

abbrev pub status_disconnected : ℕ
status_disconnected = 0

abbrev pub status_connecting : ℕ
status_connecting = 1

abbrev pub status_connected : ℕ
status_connected = 2

abbrev pub status_reconnecting : ℕ
status_reconnecting = 3

pub record Callbacks : Type 0 where
  pub log_fn : Option ℕ
  pub status_fn : Option ℕ
  pub event_fn : Option ℕ

pub data Fired : Type 0 where
  logs : ℕ → ℕ → String → Fired
  tells : ℕ → ℤ → ℕ → String → Fired
  signals : ℕ → ℤ → String → Fired

abbrev pub new_callbacks : Callbacks
new_callbacks = record { log_fn = none; status_fn = none; event_fn = none }

unfoldable pub set_log_func : Option ℕ → Callbacks → Callbacks
set_log_func fn cb = record cb { log_fn = fn }

unfoldable pub set_status_func : Option ℕ → Callbacks → Callbacks
set_status_func fn cb = record cb { status_fn = fn }

unfoldable pub set_event_func : Option ℕ → Callbacks → Callbacks
set_event_func fn cb = record cb { event_fn = fn }

-- if fn != nil
fired : Option ℕ → (ℕ → Fired) → List Fired
fired none call = []
fired (some fn) call = call fn ∷ []

unfoldable pub fire_log : ℕ → String → Callbacks → List Fired
unfolding fired
fire_log level msg cb = fired cb.log_fn (λ fn. Fired.logs fn level msg)

unfoldable pub fire_status : ℤ → ℕ → String → Callbacks → List Fired
unfolding fired
fire_status handle status detail cb = fired cb.status_fn (λ fn. Fired.tells fn handle status detail)

unfoldable pub fire_event : ℤ → String → Callbacks → List Fired
unfolding fired
fire_event handle event_json cb = fired cb.event_fn (λ fn. Fired.signals fn handle event_json)
