-- ===== src/Server/Admin/Probes.antt =====
-- pkg/server/server.go: the speed test of handleAdminListClients. Each client is probed by a goroutine,
-- whose forwardToClientAndWait has two parts: it files and writes the request, and wakes up with the
-- answer or after 15 seconds. A list of turns says in which order these parts, and what all other
-- goroutines do, follow one another.
pub mod Sections
pub mod Alone
use clienthub.Prelude.{
  ℕ, zero, suc, ◌+◌, ◌*◌, ◌/◌, ◌%◌, ◌≡◌, String, Bool, false, not, Option, none, some, List, [],
  ◌∷◌, ◌++◌, map, ltb, if◌then◌else◌, lookup, delete, nat_eq, ℤ, pos, negsuc, Result, ok, err,
}
use clienthub.Proto.Message.{Bytes, Message, new_message, msg_speed_test}
use clienthub.Proto.Payload.{
  ClientInfo, ResponsePayload, SpeedResultPayload, ClientSpeedInfo, decode_json,
}
use clienthub.Registry.{ClientSession, get_client}
use clienthub.Relay.{Write}
use clienthub.Server.State.{Server, Library, Net, Arg, unless_failed}
use clienthub.Server.Pending.{next_id, filed, forget, received}

-- How far the goroutine of one client is: it waits under the number of its request on a channel, or
-- has the answer or the error, after so many milliseconds.
pub data Stage : Type 0 where
  unstarted : Stage
  waiting : ℕ → ℕ → Stage
  ended : Result String Message → ℕ → Stage

abbrev pub Probe : Type 0
Probe = ClientInfo × Stage

-- The goroutine at this place runs its first part, or its second: its select takes the channel, if
-- there is a message, or else the timer. Or others run.
pub data Turn : Type 0 where
  starts : ℕ → Turn
  wakes : ℕ → Bool → ℕ → Turn
  others : (Server → Server) → Turn

-- probeData[i] = byte(i & 0xff)
pub probe_from : ℕ → ℕ → Bytes
probe_from i zero = []
probe_from i (suc n) = i % 256 ∷ probe_from (i + 1) n

abbrev pub probe_data : Bytes
probe_data = probe_from 0 (512 * 1024)

-- The state and the writes of a turn, and what became of the probes.
abbrev pub Turned : Type 0 → Type 0
Turned A = (Server × List Write) × A

sent : Library → ℕ → ℕ → Server → Option String → Server × Stage
sent lib req_id ch s none = (s, waiting req_id ch)
sent lib req_id ch s (some e) =
    (forget req_id s, ended (err (lib.sprintf "send to client: %w" (Arg.text e ∷ []))) 0)

begun : Library → Net → ClientInfo → Server → Option ClientSession → Turned Probe
unfolding sent
begun lib net c s none =
    ((s, []), (c, ended (err (lib.sprintf "client %q not found" (Arg.text c.name ∷ []))) 0))
begun lib net c s (some client) =
    let w : Write = (client.conn, new_message msg_speed_test (next_id s) probe_data) in
    let (s', stage) = sent lib (next_id s) s.next_channel (filed s) (net w) in
    ((s', unless_failed (net w) w), (c, stage))

start : Library → Net → Server → Probe → Turned Probe
unfolding begun
start lib net s (c, unstarted) = begun lib net c s (get_client c.name s.registry)
start lib net s (c, waiting req_id ch) = ((s, []), (c, waiting req_id ch))
start lib net s (c, ended r rtt) = ((s, []), (c, ended r rtt))

wake : Bool → ℕ → Server → Probe → Turned Probe
wake takes rtt s (c, waiting req_id ch) = (
  (forget req_id (record s { channels = delete ch s.channels }), []),
  (c, ended (received (lookup ch s.channels) takes) rtt),
)
wake takes rtt s (c, unstarted) = ((s, []), (c, unstarted))
wake takes rtt s (c, ended r rtt') = ((s, []), (c, ended r rtt'))

at_place : (Server → Probe → Turned Probe) → ℕ → List Probe → Server → Turned (List Probe)
at_place f i [] s = ((s, []), [])
at_place f zero (p ∷ ps) s = let (x, p') = f s p in (x, p' ∷ ps)
at_place f (suc i) (p ∷ ps) s = let (x, ps') = at_place f i ps s in (x, p ∷ ps')

one_by_one : (Server → Probe → Turned Probe) → List Probe → Server → Turned (List Probe)
one_by_one f [] s = ((s, []), [])
one_by_one f (p ∷ ps) s =
    let ((t, ws), p') = f s p in let ((u, vs), ps') = one_by_one f ps t in ((u, ws ++ vs), p' ∷ ps')

take_turn : Library → Net → Turn → List Probe → Server → Turned (List Probe)
unfolding start wake at_place
take_turn lib net (starts i) ps s = at_place (start lib net) i ps s
take_turn lib net (wakes i takes rtt) ps s = at_place (wake takes rtt) i ps s
take_turn lib net (others f) ps s = ((f s, []), ps)

-- wg.Wait(): the goroutines that have had no turn start, and those that still wait time out.
settle : Library → Net → List Probe → Server → Turned (List Probe)
unfolding start wake one_by_one
settle lib net ps s =
    let ((t, ws), qs) = one_by_one (start lib net) ps s in
    let ((u, vs), rs) = one_by_one (wake false 15000) qs t in ((u, ws ++ vs), rs)

pub play : Library → Net → List Turn → List Probe → Server → Turned (List Probe)
unfolding take_turn settle
play lib net [] ps s = settle lib net ps s
play lib net (t ∷ ts) ps s =
    let ((u, ws), qs) = take_turn lib net t ps s in
    let ((v, vs), rs) = play lib net ts qs u in ((v, ws ++ vs), rs)

abbrev unmeasured : ClientInfo → ClientSpeedInfo
unmeasured c = record { info = c; rtt_ms = negsuc 0; throughput_kbps = negsuc 0 }

-- int64(probeSize/1024) * 1000 / rtt.Milliseconds(), for a probe of 512 KB
abbrev throughput : ℕ → ℤ
throughput rtt = if ltb 0 rtt then pos (512 * 1024 / 1024 * 1000 / rtt) else negsuc 0

measured : Library → ClientInfo → ℕ → Option SpeedResultPayload → ClientSpeedInfo
measured lib c rtt none = unmeasured c
measured lib c rtt (some speed) = record {
  info = c;
  rtt_ms = pos rtt;
  throughput_kbps = throughput rtt;
}

checked : Library → ClientInfo → ℕ → Option ResponsePayload → ClientSpeedInfo
unfolding measured
checked lib c rtt none = unmeasured c
checked lib c rtt (some result) =
    if not result.success
    then unmeasured c
    else measured lib c rtt (decode_json lib.speed_result result.raw)

speed_of : Library → Probe → ClientSpeedInfo
unfolding checked
speed_of lib (c, ended (ok resp) rtt) = checked lib c rtt (decode_json lib.response resp.payload)
speed_of lib (c, ended (err e) rtt) = unmeasured c
speed_of lib (c, unstarted) = unmeasured c
speed_of lib (c, waiting req_id ch) = unmeasured c

pub probed : Library → Net → List Turn → List ClientInfo → Server → Turned (List ClientSpeedInfo)
unfolding speed_of
probed lib net turns clients s =
    let (x, ps) = play lib net turns (map (λ c. (c, unstarted)) clients) s in
    (x, map (speed_of lib) ps)
