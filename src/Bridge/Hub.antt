-- ===== src/Bridge/Hub.antt =====
-- pkg/cbridge/bridge.go: the life of a client behind a handle. A *ClientHandle is an address, and a
-- context is a number. What encoding/json does is a field of `Json`.
pub mod Invariant
pub mod Life
pub mod Steps
pub mod Restart
pub mod Status
use clienthub.Prelude.{
  ℕ, ◌+◌, ◌≡◌, String, text_append, Bool, ◌||◌, Option, none, some, List, [], ◌∷◌, ◌++◌, map, Map,
  lookup, insert, ◌==◌, nat_eq, string_eq, if◌then◌else◌, Result, ok, err, ℤ, pos, negsuc, Return,
  returns, panics,
}
use clienthub.Proto.Message.{Bytes}
use clienthub.Proto.Payload.{ResponsePayload}
use clienthub.Config.{ClientConfig, expose_or_tcp, forward_or_tcp}
use clienthub.Client.State.{Client, new_client}
use clienthub.Manager.{Manager}
use clienthub.Bridge.Handles.{HandleRegistry, new_handle_registry, put, get, remove}
use clienthub.Bridge.Callbacks.{
  Callbacks, new_callbacks, Fired, fire_log, fire_status, status_disconnected, status_connecting,
}

-- json.Unmarshal into a config.ClientConfig, with the text of its error; json.Marshal of the maps
-- that are built here; the bytes of a text; and the number of the entries that json.Unmarshal
-- leaves in a slice of json.RawMessage.
pub record Json : Type 0 where
  pub client_config : String → Result String ClientConfig
  pub status : ℕ → String → String → String
  pub failure : String → String
  pub response : ResponsePayload → String
  pub name : String → Bytes
  pub counts : ℕ → ℕ → String
  pub bytes : String → Bytes
  pub entries_left : Bytes → ℕ

-- Cfg points to the configuration of the client. What Client.Run does to the client is told there.
pub record ClientHandle : Type 0 where
  pub client : Client
  pub cancel : Option ℕ
  pub status : ℕ

pub data Object : Type 0 where
  client_at : ℕ → Object
  manager_of : Manager → Object

-- A goroutine that ClientStart has started, and in which Client.Run has not returned.
pub record Run : Type 0 where
  pub handle : ℤ
  pub address : ℕ
  pub context : ℕ

-- `clients` is the memory of the *ClientHandle, and `cancelled` lists the contexts whose cancel
-- function was called.
pub record Hub : Type 0 where
  pub registry : HandleRegistry Object
  pub callbacks : Callbacks
  pub clients : Map ℕ ClientHandle
  pub next_address : ℕ
  pub next_context : ℕ
  pub cancelled : List ℕ
  pub runs : List Run

abbrev pub new_hub : Hub
new_hub = record {
  registry = new_handle_registry;
  callbacks = new_callbacks;
  clients = [];
  next_address = 0;
  next_context = 0;
  cancelled = [];
  runs = [];
}

abbrev pub with_defaults : ClientConfig → ClientConfig
with_defaults cfg = record cfg {
  expose = map expose_or_tcp cfg.expose;
  forward = map forward_or_tcp cfg.forward;
}

registered : ClientConfig → Hub → Hub × ℤ
registered cfg h =
    let ch : ClientHandle = record {
      client = new_client cfg;
      cancel = none;
      status = status_disconnected;
    } in
    let (r, id) = put (client_at h.next_address) h.registry in
    (
      record h {
        registry = r;
        clients = insert h.next_address ch h.clients;
        next_address = h.next_address + 1;
      },
      id,
    )

abbrev pub refused : String → Hub → (Hub × ℤ) × List Fired
refused why h = ((h, negsuc 0), fire_log 2 why h.callbacks)

created : Result String ClientConfig → Hub → (Hub × ℤ) × List Fired
unfolding registered
created (err e) h = refused (text_append "ClientCreate: invalid config JSON: " e) h
created (ok cfg) h =
    if cfg.server_addr == "" || cfg.client_name == "" || cfg.secret == ""
    then refused "ClientCreate: server_addr, client_name, and secret are required" h
    else (registered (with_defaults cfg) h, [])

-- The handle, or -1.
unfoldable pub client_create : Json → String → Hub → (Hub × ℤ) × List Fired
unfolding created
client_create json config_json h = created (json.client_config config_json) h

abbrev pub on_client : {A : Type 0} → (ClientHandle → Return A) → Option ClientHandle → Return A
on_client f none = panics
on_client f (some ch) = f ch

-- The type assertion obj.(*ClientHandle), and the reading of the pointer.
abbrev pub at_client :
    {A : Type 0} → A → (ℕ → ClientHandle → Return A) → Hub → Option Object → Return A
at_client missing f h none = returns missing
at_client missing f h (some (manager_of m)) = panics
at_client missing f h (some (client_at a)) = on_client (f a) (lookup a h.clients)

abbrev pub started : ℤ → Hub → ℕ → ClientHandle → Option ℕ → Hub × List Fired
started handle h a ch (some c) = (h, [])
started handle h a ch none = (
  record h {
    clients =
        insert a (record ch { cancel = some h.next_context; status = status_connecting }) h.clients;
    next_context = h.next_context + 1;
    runs = record { handle = handle; address = a; context = h.next_context } ∷ h.runs;
  },
  fire_status handle status_connecting "connecting" h.callbacks,
)

unfoldable pub client_start : ℤ → Hub → Return (Hub × List Fired)
client_start handle h =
    at_client (h, []) (λ a ch. returns (started handle h a ch ch.cancel)) h (get handle h.registry)

abbrev pub stopped : Hub → ℕ → ClientHandle → Option ℕ → Hub
stopped h a ch none = h
stopped h a ch (some c) = record h {
  clients = insert a (record ch { cancel = none }) h.clients;
  cancelled = c ∷ h.cancelled;
}

unfoldable pub client_stop : ℤ → Hub → Return Hub
client_stop handle h =
    at_client h (λ a ch. returns (stopped h a ch ch.cancel)) h (get handle h.registry)

destroyed : ℤ → Return Hub → Return Hub
destroyed handle panics = panics
destroyed handle (returns h) = returns (record h { registry = remove handle h.registry })

unfoldable pub client_destroy : ℤ → Hub → Return Hub
unfolding destroyed
client_destroy handle h = destroyed handle (client_stop handle h)

-- ch.Status = StatusDisconnected; ch.Cancel = nil
abbrev pub ended : Option ClientHandle → ℕ → Map ℕ ClientHandle → Map ℕ ClientHandle
ended none a clients = clients
ended (some ch) a clients =
    insert a (record ch { status = status_disconnected; cancel = none }) clients

abbrev pub detail_of : Option String → String
detail_of none = "stopped"
detail_of (some e) = e

abbrev pub without : ℕ → List Run → List Run
without c [] = []
without c (r ∷ rs) = let rest = without c rs in if r.context == c then rest else r ∷ rest

-- What the goroutine does when Client.Run has returned, with its error.
unfoldable pub run_returned : Run → Option String → Hub → Hub × List Fired
run_returned run error h = (
  record h {
    clients = ended (lookup run.address h.clients) run.address h.clients;
    runs = without run.context h.runs;
  },
  fire_status run.handle status_disconnected (detail_of error) h.callbacks,
)

unfoldable pub client_get_status : Json → ℤ → Hub → Return String
client_get_status json handle h =
    at_client "{\"error\":\"invalid handle\"}"
      (λ a ch. returns (json.status ch.status ch.client.cfg.client_name ch.client.cfg.server_addr))
      h (get handle h.registry)
