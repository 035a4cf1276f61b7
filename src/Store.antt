-- ===== src/Store.antt =====
-- pkg/server/store.go: the stored expose and forward rules of each client, and the file that they are
-- saved to. Each method is one step; what os.ReadFile and os.WriteFile did is an argument. The source
-- releases the lock before it saves: a save that comes later than its change is a step of its own in
-- Server/Steps.antt.
pub mod Rules
pub mod Lookup
pub mod Order
pub mod Listing
pub mod Reopen
pub use clienthub.Prelude.{Return, returns, panics}
use clienthub.Prelude.{
  ℕ, ◌≡◌, String, Bool, true, false, not, ◌&&◌, Option, none, some, List, [], ◌∷◌, ◌++◌, map, ◌==◌,
  string_eq, if◌then◌else◌, Map, lookup, insert, Result, ok, err,
}
use clienthub.Proto.Message.{Bytes}
use clienthub.Proto.Payload.{ExposeRule, ForwardInfo, ExposeListEntry, Codec}
use Rules.{upsert, remove_by}

pub record ClientRules : Type 0 where
  pub expose : List ExposeRule
  pub forward : List ForwardInfo

-- A file may hold `null` for a client, which is loaded as a nil pointer.
abbrev pub Clients : Type 0
Clients = Map String (Option ClientRules)

-- The rules in memory, and what the file at `path` holds.
pub record Store : Type 0 where
  pub clients : Clients
  pub file : Option Bytes

pub data SaveError : Type 0 where
  marshal_failed write_failed : SaveError

-- A failed write leaves any contents.
pub data WriteOutcome : Type 0 where
  written : WriteOutcome
  failed : Option Bytes → WriteOutcome

abbrev pub Saved : Type 0
Saved = Store × Option SaveError

pub data ReadOutcome : Type 0 where
  contents : Bytes → ReadOutcome
  not_exist unreadable : ReadOutcome

pub data LoadError : Type 0 where
  read_failed unmarshal_failed : LoadError

loaded : Bytes → Option Clients → Result LoadError Store
loaded b none = err unmarshal_failed
loaded b (some cs) = ok (record { clients = cs; file = some b })

-- NewStore: a file that does not exist is no error.
unfoldable pub new_store : Codec Clients → ReadOutcome → Result LoadError Store
unfolding loaded
new_store codec not_exist = ok (record { clients = []; file = none })
new_store codec unreadable = err read_failed
new_store codec (contents b) = loaded b (codec.unmarshal b)

write_file : Option Bytes → WriteOutcome → Store → Saved
write_file none w s = (s, some marshal_failed)
write_file (some b) written s = (record s { file = some b }, none)
write_file (some b) (failed left) s = (record s { file = left }, some write_failed)

unfoldable pub save : Codec Clients → WriteOutcome → Store → Saved
unfolding write_file
save codec w s = write_file (codec.marshal s.clients) w s

-- s.Clients[clientName]: nil for a client without an entry.
abbrev pub pointed : Option (Option ClientRules) → Option ClientRules
pointed none = none
pointed (some p) = p

unfoldable pub get_client_rules : String → Store → Option ClientRules
get_client_rules client_name s = pointed (lookup client_name s.clients)

abbrev pub no_rules : ClientRules
no_rules = record { expose = []; forward = [] }

-- getOrCreate, as far as the rules go that the callers then change and leave in the map.
abbrev pub or_created : Option ClientRules → ClientRules
or_created none = no_rules
or_created (some r) = r

unfoldable pub add_expose : Codec Clients → WriteOutcome → String → ExposeRule → Store → Saved
unfolding get_client_rules
add_expose codec w client_name rule s =
    let rules = or_created (get_client_rules client_name s) in
    save codec w (record s {
      clients =
          insert client_name
            (some (record rules { expose = upsert (λ r. r.name) rule rules.expose })) s.clients;
    })

unfoldable pub add_forward : Codec Clients → WriteOutcome → String → ForwardInfo → Store → Saved
unfolding get_client_rules
add_forward codec w client_name fwd s =
    let rules = or_created (get_client_rules client_name s) in
    save codec w (record s {
      clients =
          insert client_name
            (some (record rules { forward = upsert (λ f. f.listen_addr) fwd rules.forward }))
            s.clients;
    })

drop_expose :
    Codec Clients
    → WriteOutcome
    → String
    → String
    → Store
    → Option (Option ClientRules)
    → Return Saved
drop_expose codec w client_name service_name s none = returns (s, none)
drop_expose codec w client_name service_name s (some none) = panics
drop_expose codec w client_name service_name s (some (some rules)) = returns (
    save codec w (record s {
      clients =
          insert client_name
            (some (record rules { expose = remove_by (λ r. r.name) service_name rules.expose }))
            s.clients;
    }))

unfoldable pub remove_expose : Codec Clients → WriteOutcome → String → String → Store → Return Saved
unfolding drop_expose
remove_expose codec w client_name service_name s =
    drop_expose codec w client_name service_name s (lookup client_name s.clients)

drop_forward :
    Codec Clients
    → WriteOutcome
    → String
    → String
    → Store
    → Option (Option ClientRules)
    → Return Saved
drop_forward codec w client_name listen_addr s none = returns (s, none)
drop_forward codec w client_name listen_addr s (some none) = panics
drop_forward codec w client_name listen_addr s (some (some rules)) = returns (
    save codec w (record s {
      clients =
          insert client_name
            (some
              (record rules { forward = remove_by (λ f. f.listen_addr) listen_addr rules.forward }))
            s.clients;
    }))

unfoldable pub remove_forward :
    Codec Clients → WriteOutcome → String → String → Store → Return Saved
unfolding drop_forward
remove_forward codec w client_name listen_addr s =
    drop_forward codec w client_name listen_addr s (lookup client_name s.clients)

rows : String → Option ClientRules → Return (List ExposeListEntry) → Return (List ExposeListEntry)
rows name none rest = panics
rows name (some rules) panics = panics
rows name (some rules) (returns rest) =
    returns (map (λ r. record { client_name = name; rule = r }) rules.expose ++ rest)

list_rows : String → Clients → Return (List ExposeListEntry)
unfolding rows
list_rows client_name [] = returns []
list_rows client_name ((name, rules) ∷ m) =
    let rest = list_rows client_name m in
    if not (client_name == "") && not (name == client_name) then rest else rows name rules rest

unfoldable pub list_expose : String → Store → Return (List ExposeListEntry)
unfolding list_rows
list_expose client_name s = list_rows client_name s.clients
