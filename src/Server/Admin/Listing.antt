-- ===== src/Server/Admin/Listing.antt =====
-- pkg/server/server.go: the listings for an administrator: clients with their speed, tunnels, expose
-- rules and forwards.
pub mod Sections
use clienthub.Prelude.{
  ℕ, String, Bool, true, false, not, ◌&&◌, Option, none, some, List, [], ◌∷◌, ◌++◌, ◌==◌, string_eq,
  if◌then◌else◌, is_empty, length, Result, ok, err,
}
use clienthub.Proto.Message.{Message, msg_list_forwards}
use clienthub.Proto.Payload.{
  KickPayload, ClientInfo, ForwardInfo, ResponsePayload, ListClientsPayload, ExposeListEntry,
  encode_json, decode_json,
}
use clienthub.Registry.{list_clients, list_tunnels}
use clienthub.Relay.{Write}
use clienthub.Store.{Return, returns, panics, list_expose}
use clienthub.Server.State.{Server, Library, Net, Arg, admin_reply}
use clienthub.Server.Pending.{Meanwhile, forward_to_client_and_wait}
use clienthub.Server.Admin.{Handled, handled, pass_on}
use clienthub.Server.Admin.Probes.{Turn, probed}

-- case proto.MsgListTunnels
unfoldable pub handle_list_tunnels : Library → Net → ℕ → Server → Handled
handle_list_tunnels lib net conn s =
    let tunnels = list_tunnels s.registry in
    handled s (
      admin_reply lib net conn true
        (lib.sprintf "%d active tunnels" (Arg.number (length tunnels) ∷ []))
        (encode_json lib.tunnel_infos tunnels))

wants_speed : Option ListClientsPayload → Bool
wants_speed none = false
wants_speed (some p) = p.speed_test

-- `turns` is the order in which the goroutines of the probes and all others run.
unfoldable pub handle_admin_list_clients :
    Library → Net → List Turn → ℕ → Message → Server → Handled
unfolding wants_speed
handle_admin_list_clients lib net turns conn msg s =
    let clients = list_clients lib.addr lib.rfc3339 s.registry in
    let message = lib.sprintf "%d clients connected" (Arg.number (length clients) ∷ []) in
    let ((s', ws), results) = probed lib net turns clients s in
    if not (is_empty msg.payload) && wants_speed (decode_json lib.list_clients msg.payload)
    then handled s'
        (ws ++ admin_reply lib net conn true message (encode_json lib.speed_infos results))
    else handled s (admin_reply lib net conn true message (encode_json lib.client_infos clients))

filter_of : Option KickPayload → String
filter_of none = ""
filter_of (some req) = req.client_name

listed : Library → Net → ℕ → Server → Return (List ExposeListEntry) → Return Handled
listed lib net conn s panics = panics
listed lib net conn s (returns entries) = returns (
    handled s (
      admin_reply lib net conn true
        (lib.sprintf "%d expose rules" (Arg.number (length entries) ∷ []))
        (encode_json lib.expose_entries entries)))

unfoldable pub handle_admin_list_expose : Library → Net → ℕ → Message → Server → Return Handled
unfolding filter_of listed
handle_admin_list_expose lib net conn msg s =
    let client_filter =
      if is_empty msg.payload then "" else filter_of (decode_json lib.kick msg.payload) in
    listed lib net conn s (list_expose client_filter s.store)

forwards_in : Library → Option ResponsePayload → List ForwardInfo
forwards_in lib none = []
forwards_in lib (some result) =
    if not result.success
    then []
    else if is_empty result.raw
    then []
    else lib.forwards_left result.raw

forwards_of : Library → Result String Message → List ForwardInfo
unfolding forwards_in
forwards_of lib (err e) = []
forwards_of lib (ok resp) = forwards_in lib (decode_json lib.response resp.payload)

-- One client after the other: the forwards, the state, and the writes.
unfoldable pub collect :
    Library
    → Net
    → (String → Meanwhile)
    → List ClientInfo
    → Server
    → List ForwardInfo × Server × List Write
unfolding forwards_of
collect lib net meanwhile [] s = ([], s, [])
collect lib net meanwhile (c ∷ cs) s =
    let (r, ws) =
      forward_to_client_and_wait lib net (meanwhile c.name) c.name msg_list_forwards [] s in
    let (forwards, s', ws') = collect lib net meanwhile cs r.1 in
    (forwards_of lib r.0 ++ forwards, s', ws ++ ws')

list_all : Library → Net → (String → Meanwhile) → ℕ → Server → Handled
list_all lib net meanwhile conn s =
    let (all_forwards, s', ws) =
      collect lib net meanwhile (list_clients lib.addr lib.rfc3339 s.registry) s in
    handled s' (
      ws
      ++ admin_reply lib net conn true
          (lib.sprintf "%d active forwards" (Arg.number (length all_forwards) ∷ []))
          (encode_json lib.forward_infos all_forwards))

one_answered : Library → Net → ℕ → List Write → Result String Message → Server → Handled
one_answered lib net conn ws (err e) s = handled s (ws ++ admin_reply lib net conn false e [])
one_answered lib net conn ws (ok resp) s = handled s (ws ++ pass_on net conn resp)

list_one : Library → Net → (String → Meanwhile) → ℕ → String → Server → Handled
unfolding one_answered
list_one lib net meanwhile conn name s =
    let (r, ws) = forward_to_client_and_wait lib net (meanwhile name) name msg_list_forwards [] s in
    one_answered lib net conn ws r.0 r.1

unfoldable pub handle_admin_list_forwards :
    Library → Net → (String → Meanwhile) → ℕ → Message → Server → Handled
unfolding list_all list_one filter_of
handle_admin_list_forwards lib net meanwhile conn msg s =
    let name = if is_empty msg.payload then "" else filter_of (decode_json lib.kick msg.payload) in
    if name == "" then list_all lib net meanwhile conn s else list_one lib net meanwhile conn name s
