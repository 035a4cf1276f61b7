-- ===== src/Server/Admin/Loop/Whole.antt =====
-- What a whole connection of an administrator does to the server.
use clienthub.Prelude.{ℕ, ◌≡◌, Option, some}
use clienthub.Proto.Message.{Bytes, Message}
use clienthub.Crypto.{Primitives}
use clienthub.Store.{Return, returns}
use clienthub.Server.State.{Server, Library}
use clienthub.Server.Admin.{Handled}
use clienthub.Server.Admin.Dispatch.Sections.{AreRuns}
use clienthub.Server.Admin.Loop.{World}
use clienthub.Server.Steps.{Reaches}
use clienthub.Server.Steps.Invariant.{IsOrderly}

-- All that happens around the commands of an administrator is made of critical sections.
pub record IsMadeOfSteps (lib : Library) (w : World) : Type 0 where
  pub between : (t : Server) → Reaches lib.clients t (w.between t)
  pub around : (msg : Message) (t : Server) → AreRuns lib (w.around msg t) (w.wait msg t)

module _ (p : Primitives) (key : Bytes) (lib : Library) (w : World) (conn : ℕ)
    (steps : IsMadeOfSteps lib w) (s : Server) (orderly : IsOrderly s) where
  -- The commands so far returned, and did what critical sections do.
  abbrev Returned : Return Handled → Type 0
  Returned r = (h : Handled) × (r ≡ returns h) × Reaches lib.clients s h.server

  abbrev Done : Option (Return Handled) → Type 0
  Done o = (h : Handled) × (o ≡ some (returns h)) × Reaches lib.clients s h.server
