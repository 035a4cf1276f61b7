-- ===== src/Server/Steps.antt =====
-- The critical sections of pkg/server/server.go. Every handler is made of them, and the sections of
-- different goroutines may follow one another in any order.
pub mod Invariant
pub mod Connections
pub mod Waiting
use clienthub.Prelude.{
  ℕ, ◌≡◌, ◌≢◌, String, Bool, false, Option, some, List, [], ◌∷◌, ◌==◌, nat_eq, string_eq, delete,
  lookup, any,
}
use clienthub.Proto.Message.{Bytes, Message}
use clienthub.Proto.Payload.{ServiceInfo, Codec}
use clienthub.Registry.{ClientSession, add_client, allocate_session, remove_tunnel, update_services}
use clienthub.Store.{Clients, Saved, returns}
use clienthub.Store.Order as StoreCalls
use clienthub.Store.Order.{Call}
use clienthub.Server.State.{Server, drop_client}
use clienthub.Server.Pending.{handle_client_response, filed, forget}
use clienthub.Server.Session.{close}

-- The list has the number.
abbrev pub among : ℕ → List ℕ → Bool
among n xs = any (λ x. x == n) xs

-- A socket that was just accepted: it was never closed, and no session has it.
pub record IsNew (conn : ℕ) (s : Server) : Type 0 where
  pub is_open : among conn s.closed ≡ false
  pub unused :
      (name : String) (a : ClientSession) → lookup name s.registry.clients ≡ some a → a.conn ≢ conn

module _ (codec : Codec Clients) where
  pub data Step : Server → Server → Type 0 where
    updates :
        (s : Server) (name : String) (services : List ServiceInfo)
        → Step s (record s { registry = update_services name services s.registry })
    allocates :
        (s : Server) (source target service protocol : String) (now : ℕ)
        → Step s (record s {
          registry = (allocate_session source target service protocol now s.registry).1;
        })
    ends_tunnel :
        (s : Server) (id : ℕ) → Step s (record s { registry = remove_tunnel id s.registry })
    drops : (s : Server) (name : String) → Step s (drop_client name s)
    adds :
        (s : Server) (session : ClientSession)
        → IsNew session.conn s
        → Step s (record s { registry = add_client session s.registry })
    closes : (s : Server) (conn : ℕ) → IsNew conn s → Step s (close conn s)
    answers : (s : Server) (msg : Message) → Step s (handle_client_response msg s)
    files : (s : Server) → Step s (filed s)
    wakes : (s : Server) (ch : ℕ) → Step s (record s { channels = delete ch s.channels })
    forgets : (s : Server) (id : ℕ) → Step s (forget id s)
    stores :
        (s : Server) (c : Call) (t : Saved)
        → StoreCalls.step codec s.store c ≡ returns t
        → Step s (record s { store = t.0 })
    -- save runs after the lock of the change is released: the file may come to hold what an earlier
    -- call, or half of a call, writes to it.
    writes_late :
        (s : Server) (file : Option Bytes)
        → Step s (record s { store = record s.store { file = file } })

  -- Any number of critical sections.
  pub data Reaches (s : Server) : Server → Type 0 where
    here : Reaches s s
    next : {t u : Server} → Reaches s t → Step t u → Reaches s u

  pub one : {s t : Server} → Step s t → Reaches s t
  one st = next here st

  pub joined : {s t u : Server} → Reaches s t → Reaches t u → Reaches s u
  joined r here = r
  joined r (next q st) = next (joined r q) st
