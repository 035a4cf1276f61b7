-- ===== src/Bridge/CLibrary.antt =====
-- cmd/libclienthub/main.go: the functions of the C library. A C function is a number, and a text is
-- what C.GoString and C.CString carry.
pub mod Created
use clienthub.Prelude.{
  ℕ, ◌+◌, ◌-◌, ◌%◌, ◌^◌, String, Option, none, some, List, [], ◌∷◌, ◌++◌, ltb, if◌then◌else◌, ℤ,
  pos, negsuc, Return, returns, panics,
}
use clienthub.Crypto.{Primitives}
use clienthub.Manager.{Library, Line, Event}
use clienthub.Bridge.Handles.{clear}
use clienthub.Bridge.Callbacks.{Fired, set_log_func, set_status_func, set_event_func}
use clienthub.Bridge.Hub.{
  Hub, Json, new_hub, client_create, client_start, client_stop, client_destroy, client_get_status,
}
use clienthub.Bridge.Managers.{
  manager_create, manager_list_clients, manager_list_tunnels, manager_list_forwards,
  manager_add_forward, manager_remove_forward, manager_kick_client, manager_status,
  manager_list_expose, manager_add_expose, manager_remove_expose, manager_destroy,
}

-- The value of 32 bits, with its sign.
abbrev pub signed : ℕ → ℤ
signed m = if ltb m (2 ^ 31) then pos m else negsuc (2 ^ 32 - 1 - m)

-- C.int(n)
abbrev pub c_int : ℤ → ℤ
c_int (pos n) = signed (n % 2 ^ 32)
c_int (negsuc n) = signed (2 ^ 32 - 1 - n % 2 ^ 32)

-- The variables of the package.
pub record CLibrary : Type 0 where
  pub hub : Option Hub
  pub log_cb : Option ℕ
  pub status_cb : Option ℕ
  pub event_cb : Option ℕ

abbrev pub unloaded : CLibrary
unloaded = record { hub = none; log_cb = none; status_cb = none; event_cb = none }

-- getHub
abbrev pub hub_of : Option Hub → Hub
hub_of none = new_hub
hub_of (some h) = h

abbrev pub get_hub : CLibrary → Hub
get_hub c = hub_of c.hub

abbrev pub with_hub : Hub → CLibrary → CLibrary
with_hub h c = record c { hub = some h }

-- A call of a function of the application.
pub data CCall : Type 0 where
  log_called : ℕ → ℤ → String → CCall
  status_called : ℕ → ℤ → ℤ → String → CCall
  event_called : ℕ → ℤ → String → CCall

called : Option ℕ → (ℕ → CCall) → List CCall
called none call = []
called (some f) call = call f ∷ []

-- What the functions that the library sets on the hub do: they look up the application's function
-- when they are called.
delivered : CLibrary → List Fired → List CCall
unfolding called
delivered c [] = []
delivered c (Fired.logs fn level msg ∷ fs) =
    called c.log_cb (λ f. CCall.log_called f (c_int (pos level)) msg) ++ delivered c fs
delivered c (Fired.tells fn handle status detail ∷ fs) =
    called c.status_cb (λ f. CCall.status_called f (c_int handle) (c_int (pos status)) detail)
    ++ delivered c fs
delivered c (Fired.signals fn handle json ∷ fs) =
    called c.event_cb (λ f. CCall.event_called f (c_int handle) json) ++ delivered c fs

unfoldable pub c_hub_init : CLibrary → CLibrary
c_hub_init c = with_hub (get_hub c) c

freed : Option Hub → Option Hub
freed none = none
freed (some h) = some (record h { registry = clear h.registry })

unfoldable pub c_hub_free : CLibrary → CLibrary
unfolding freed
c_hub_free c = record c { hub = freed c.hub }

-- The functions that the library sets are numbered 0, 1 and 2.
unfoldable pub c_hub_set_log_callback : Option ℕ → CLibrary → CLibrary
c_hub_set_log_callback fn c =
    let h = get_hub c in
    record (with_hub (record h { callbacks = set_log_func (some 0) h.callbacks }) c) { log_cb = fn }

unfoldable pub c_hub_set_status_callback : Option ℕ → CLibrary → CLibrary
c_hub_set_status_callback fn c =
    let h = get_hub c in
    record (with_hub (record h { callbacks = set_status_func (some 1) h.callbacks }) c) {
      status_cb = fn;
    }

unfoldable pub c_hub_set_event_callback : Option ℕ → CLibrary → CLibrary
c_hub_set_event_callback fn c =
    let h = get_hub c in
    record (with_hub (record h { callbacks = set_event_func (some 2) h.callbacks }) c) {
      event_cb = fn;
    }

-- A created object: the library, the handle, and the calls.
numbered : CLibrary → (Hub × ℤ) × List Fired → (CLibrary × ℤ) × List CCall
unfolding delivered
numbered c ((h, id), fs) = ((with_hub h c, c_int id), delivered c fs)

unfoldable pub c_hub_client_create : Json → String → CLibrary → (CLibrary × ℤ) × List CCall
unfolding numbered
c_hub_client_create json config_json c = numbered c (client_create json config_json (get_hub c))

started_on : CLibrary → Return (Hub × List Fired) → Return (CLibrary × List CCall)
unfolding delivered
started_on c panics = panics
started_on c (returns (h, fs)) = returns (with_hub h c, delivered c fs)

unfoldable pub c_hub_client_start : ℤ → CLibrary → Return (CLibrary × List CCall)
unfolding started_on
c_hub_client_start handle c = started_on c (client_start handle (get_hub c))

changed : CLibrary → Return Hub → Return CLibrary
changed c panics = panics
changed c (returns h) = returns (with_hub h c)

unfoldable pub c_hub_client_stop : ℤ → CLibrary → Return CLibrary
unfolding changed
c_hub_client_stop handle c = changed c (client_stop handle (get_hub c))

unfoldable pub c_hub_client_destroy : ℤ → CLibrary → Return CLibrary
unfolding changed
c_hub_client_destroy handle c = changed c (client_destroy handle (get_hub c))

unfoldable pub c_hub_client_get_status : Json → ℤ → CLibrary → Return String
c_hub_client_get_status json handle c = client_get_status json handle (get_hub c)

module _ (p : Primitives) (lib : Library) (json : Json) where
  unfoldable pub c_hub_manager_create : String → String → CLibrary → (CLibrary × ℤ) × List CCall
  unfolding numbered
  c_hub_manager_create addr secret c = numbered c (manager_create p addr secret (get_hub c))

  -- The answers are texts in memory that the application frees.
  unfoldable pub c_hub_manager_list_clients : Line → ℤ → CLibrary → String × List Event
  c_hub_manager_list_clients line handle c = manager_list_clients p lib json line handle (get_hub c)

  unfoldable pub c_hub_manager_list_tunnels : Line → ℤ → CLibrary → String × List Event
  c_hub_manager_list_tunnels line handle c = manager_list_tunnels p lib json line handle (get_hub c)

  unfoldable pub c_hub_manager_list_forwards : Line → ℤ → CLibrary → String × List Event
  c_hub_manager_list_forwards line handle c =
      manager_list_forwards p lib json line handle (get_hub c)

  unfoldable pub c_hub_manager_add_forward : Line → ℤ → String → CLibrary → String × List Event
  c_hub_manager_add_forward line handle params c =
      manager_add_forward p lib json line handle params (get_hub c)

  unfoldable pub c_hub_manager_remove_forward : Line → ℤ → String → CLibrary → String × List Event
  c_hub_manager_remove_forward line handle params c =
      manager_remove_forward p lib json line handle params (get_hub c)

  unfoldable pub c_hub_manager_kick_client : Line → ℤ → String → CLibrary → String × List Event
  c_hub_manager_kick_client line handle name c =
      manager_kick_client p lib json line handle name (get_hub c)

  unfoldable pub c_hub_manager_status : Line → Line → ℤ → CLibrary → String × List Event
  c_hub_manager_status first second handle c =
      manager_status p lib json first second handle (get_hub c)

  unfoldable pub c_hub_manager_list_expose : Line → ℤ → String → CLibrary → String × List Event
  c_hub_manager_list_expose line handle client_name c =
      manager_list_expose p lib json line handle client_name (get_hub c)

  unfoldable pub c_hub_manager_add_expose : Line → ℤ → String → CLibrary → String × List Event
  c_hub_manager_add_expose line handle params c =
      manager_add_expose p lib json line handle params (get_hub c)

  unfoldable pub c_hub_manager_remove_expose : Line → ℤ → String → CLibrary → String × List Event
  c_hub_manager_remove_expose line handle params c =
      manager_remove_expose p lib json line handle params (get_hub c)

unfoldable pub c_hub_manager_destroy : ℤ → CLibrary → CLibrary
c_hub_manager_destroy handle c = with_hub (manager_destroy handle (get_hub c)) c
