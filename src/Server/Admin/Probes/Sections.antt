-- ===== src/Server/Admin/Probes/Sections.antt =====
-- The critical sections that the probes are made of.
use clienthub.Prelude.{
  ℕ, zero, suc, Bool, false, Option, none, some, List, [], ◌∷◌, All, delete, nat_eq, String,
}
use clienthub.Proto.Payload.{ClientInfo}
use clienthub.Registry.{ClientSession, get_client}
use clienthub.Server.State.{Server, Library, Net}
use clienthub.Server.Pending.{next_id, filed}
use clienthub.Server.Admin.Probes.{
  unstarted, waiting, ended, Probe, Turn, starts, wakes, others, Turned, sent, begun, start, wake,
  at_place, one_by_one, take_turn, settle, play, probed,
}
use clienthub.Server.Steps.{Step, Reaches, here, next, joined}

module _ (lib : Library) (net : Net) where
  -- What others do in their turn is made of critical sections.
  abbrev pub IsMade : Turn → Type 0
  IsMade (starts i) = Unit
  IsMade (wakes i takes rtt) = Unit
  IsMade (others f) = (s : Server) → Reaches lib.clients s (f s)

  -- What a part of a goroutine does.
  abbrev Runs : (Server → Probe → Turned Probe) → Type 0
  Runs f = (s : Server) (p : Probe) → Reaches lib.clients s (f s p).0.0

  sent-Reaches :
      (req_id ch : ℕ) (s : Server) (o : Option String)
      → Reaches lib.clients s (sent lib req_id ch s o).0
  unfolding sent
  sent-Reaches req_id ch s none = here
  sent-Reaches req_id ch s (some e) = next here (Step.forgets s req_id)

  begun-Reaches :
      (c : ClientInfo) (s : Server) (o : Option ClientSession)
      → Reaches lib.clients s (begun lib net c s o).0.0
  unfolding begun
  begun-Reaches c s none = here
  begun-Reaches c s (some client) =
      joined lib.clients (next here (Step.files s))
        (sent-Reaches (next_id s) s.next_channel (filed s) _)

  start-Runs : Runs (start lib net)
  unfolding start
  start-Runs s (c, unstarted) = begun-Reaches c s (get_client c.name s.registry)
  start-Runs s (c, waiting req_id ch) = here
  start-Runs s (c, ended r rtt) = here

  wake-Runs : (takes : Bool) (rtt : ℕ) → Runs (wake takes rtt)
  unfolding wake
  wake-Runs takes rtt s (c, waiting req_id ch) =
      next (next here (Step.wakes s ch))
        (Step.forgets (record s { channels = delete ch s.channels }) req_id)
  wake-Runs takes rtt s (c, unstarted) = here
  wake-Runs takes rtt s (c, ended r rtt') = here

  at_place-Reaches :
      (f : Server → Probe → Turned Probe)
      → Runs f
      → (i : ℕ) (ps : List Probe) (s : Server) → Reaches lib.clients s (at_place f i ps s).0.0
  unfolding at_place
  at_place-Reaches f r i [] s = here
  at_place-Reaches f r zero (p ∷ ps) s = r s p
  at_place-Reaches f r (suc i) (p ∷ ps) s = at_place-Reaches f r i ps s

  one_by_one-Reaches :
      (f : Server → Probe → Turned Probe)
      → Runs f
      → (ps : List Probe) (s : Server) → Reaches lib.clients s (one_by_one f ps s).0.0
  unfolding one_by_one
  one_by_one-Reaches f r [] s = here
  one_by_one-Reaches f r (p ∷ ps) s =
      joined lib.clients (r s p) (one_by_one-Reaches f r ps (f s p).0.0)

  take_turn-Reaches :
      (t : Turn) (ps : List Probe) (s : Server)
      → IsMade t
      → Reaches lib.clients s (take_turn lib net t ps s).0.0
  unfolding take_turn
  take_turn-Reaches (starts i) ps s m = at_place-Reaches (start lib net) start-Runs i ps s
  take_turn-Reaches (wakes i takes rtt) ps s m =
      at_place-Reaches (wake takes rtt) (wake-Runs takes rtt) i ps s
  take_turn-Reaches (others f) ps s m = m s

  settle-Reaches : (ps : List Probe) (s : Server) → Reaches lib.clients s (settle lib net ps s).0.0
  unfolding settle
  settle-Reaches ps s = joined lib.clients (one_by_one-Reaches (start lib net) start-Runs ps s) (
      one_by_one-Reaches (wake false 15000) (wake-Runs false 15000)
        (one_by_one (start lib net) ps s).1 _)

  play-Reaches :
      (ts : List Turn) (ps : List Probe) (s : Server)
      → All IsMade ts
      → Reaches lib.clients s (play lib net ts ps s).0.0
  unfolding play
  play-Reaches [] ps s m = settle-Reaches ps s
  play-Reaches (t ∷ ts) ps s m =
      joined lib.clients (take_turn-Reaches t ps s m.0)
        (play-Reaches ts (take_turn lib net t ps s).1 _ m.1)

  pub probed-Reaches :
      (ts : List Turn) (cs : List ClientInfo) (s : Server)
      → All IsMade ts
      → Reaches lib.clients s (probed lib net ts cs s).0.0
  unfolding probed
  probed-Reaches ts cs s m = play-Reaches ts _ s m
