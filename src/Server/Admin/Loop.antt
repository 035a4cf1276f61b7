-- ===== src/Server/Admin/Loop.antt =====
-- pkg/server/server.go: handleAdmin from the first byte of an administrator's connection to its last.
-- What other goroutines do while a command is read, and while it runs, are functions on the state;
-- the pushes that a command starts are among them.
pub mod Whole
use clienthub.Prelude.{
  ℕ, String, Bool, true, false, Option, none, some, List, ◌++◌, [], Result, ok, err,
}
use clienthub.Proto.Message.{Bytes, Message}
use clienthub.Crypto.{Primitives}
use clienthub.Relay.{Write}
use clienthub.Store.{Return, returns, panics}
use clienthub.Tunnel.{Error, read_encrypted_message}
use clienthub.Tunnel.Stream.{read_loop}
use clienthub.Server.State.{Server, Library, Net}
use clienthub.Server.Pending.{Meanwhile}
use clienthub.Server.Session.{close}
use clienthub.Server.Admin.{Handled, handled}
use clienthub.Server.Admin.Dispatch.{Surroundings, handle_admin_message, accept_admin}

-- What happens around each command, in the state in which it begins.
pub record World : Type 0 where
  pub net : Net
  pub between : Server → Server
  pub around : Message → Server → Surroundings
  pub wait : Message → Server → Meanwhile

-- A command's writes and pushes come behind those of the commands before it.
abbrev pub after : List Write → List String → Return Handled → Return Handled
after ws ps panics = panics
after ws ps (returns h) =
    returns (record { server = h.server; writes = ws ++ h.writes; pushes = ps ++ h.pushes })

-- defer conn.Close()
abbrev pub hung_up : ℕ → Handled → Handled
hung_up conn h = record h { server = close conn h.server }

abbrev pub ended : ℕ → Return Handled → Return Handled
ended conn panics = panics
ended conn (returns h) = returns (hung_up conn h)

abbrev pub has_panicked : Return Handled → Bool
has_panicked panics = true
has_panicked (returns h) = false

module _ (p : Primitives) (key : Bytes) (lib : Library) (w : World) (conn : ℕ) where
  abbrev pub on_command : Message → Return Handled → Return Handled
  on_command msg panics = panics
  on_command msg (returns h) =
      let s = w.between h.server in
      after h.writes h.pushes (handle_admin_message lib (w.around msg s) (w.wait msg s) conn msg s)

  abbrev pub commands : ℕ → Bytes → Server → List Write × Bool → Option (Return Handled)
  commands fuel rest s (ws, false) = some (returns (handled s ws))
  commands fuel rest s (ws, true) =
      read_loop p key on_command has_panicked fuel rest (returns (handled s ws))

  abbrev pub closing : Option (Return Handled) → Option (Return Handled)
  closing none = none
  closing (some r) = some (ended conn r)

  abbrev pub from_auth : ℕ → Server → Result Error (Message × Bytes) → Option (Return Handled)
  from_auth fuel s (err e) = commands fuel [] s (accept_admin p key lib w.net conn none)
  from_auth fuel s (ok (msg, rest)) =
      commands fuel rest s (accept_admin p key lib w.net conn (some msg))

  -- None if the fuel did not last.
  unfoldable pub handle_admin : ℕ → Bytes → Server → Option (Return Handled)
  handle_admin fuel stream s = closing (from_auth fuel s (read_encrypted_message p key stream))
