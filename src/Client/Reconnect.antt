-- ===== src/Client/Reconnect.antt =====
-- pkg/client/client.go: what Run does between two connections, and its waiting time in seconds.
pub mod Drained
use clienthub.Prelude.{
  ℕ, ◌*◌, ◌≡◌, zero, suc, Option, none, some, List, [], ◌∷◌, Map, lookup, insert, nat_eq, ltb,
  if◌then◌else◌,
}
use clienthub.Client.State.{Client, LocalTunnel}
use clienthub.Client.Tunnels.{offer}

abbrev pub max_backoff : ℕ
max_backoff = 60

-- backoff *= 2, and no more than maxBackoff
abbrev pub next_backoff : ℕ → ℕ
next_backoff backoff =
    let doubled = backoff * 2 in if ltb max_backoff doubled then max_backoff else doubled

-- The waiting time after so many connections were lost; it starts at two seconds.
unfoldable pub backoff_after : ℕ → ℕ
backoff_after zero = 2
backoff_after (suc n) = next_backoff (backoff_after n)

-- for id, ch := range c.pending { select { case ch <- 0: default: }; delete(c.pending, id) }
drain_pending : Map ℕ ℕ → Map ℕ (Option ℕ) → Map ℕ (Option ℕ)
drain_pending [] channels = channels
drain_pending ((id, ch) ∷ pending) channels =
    drain_pending pending (insert ch (offer 0 (lookup ch channels)) channels)

close_all : Map ℕ LocalTunnel → List ℕ → List ℕ
close_all [] closed = closed
close_all ((id, t) ∷ tunnels) closed = close_all tunnels (t.local_conn ∷ closed)

unfoldable pub drain : Client → Client
unfolding drain_pending close_all
drain c = record c {
  pending = [];
  channels = drain_pending c.pending c.channels;
  tunnels = [];
  closed = close_all c.tunnels c.closed;
}
