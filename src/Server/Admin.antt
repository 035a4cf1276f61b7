-- ===== src/Server/Admin.antt =====
-- pkg/server/server.go: the commands of an administrator. What a goroutine does while it waits for a
-- client, and what os.WriteFile does, are arguments. A handler gives the state, the writes, and the
-- clients to which a goroutine that it starts will push the stored rules.
pub mod Listing
pub mod Probes
pub mod Loop
pub mod Dispatch
pub mod Effects
pub mod Sections
pub mod Replies
use clienthub.Prelude.{
  ℕ, ◌≡◌, String, Bool, true, false, not, ◌&&◌, Option, none, some, List, [], ◌∷◌, ◌++◌, ◌==◌,
  string_eq, if◌then◌else◌, Result, ok, err,
}
use clienthub.Proto.Message.{
  Bytes, Message, new_message, msg_response, msg_add_forward, msg_remove_forward,
}
use clienthub.Proto.Payload.{
  KickPayload, AddForwardPayload, RemoveForwardPayload, ForwardInfo, AddExposePayload,
  RemoveExposePayload, ExposeRule, decode_json,
}
use clienthub.Registry.{ClientSession, get_client}
use clienthub.Relay.{Write}
use clienthub.Store.{
  WriteOutcome, SaveError, Return, returns, panics, Saved, add_forward, remove_forward, add_expose,
  remove_expose,
}
use clienthub.Server.State.{Server, Library, Net, Arg, send, drop_client, admin_reply}
use clienthub.Server.Pending.{Meanwhile, forward_to_client_and_wait}

pub record Handled : Type 0 where
  pub server : Server
  pub writes : List Write
  pub pushes : List String

abbrev pub handled : Server → List Write → Handled
handled s ws = record { server = s; writes = ws; pushes = [] }

abbrev pub invalid : Library → Net → ℕ → Server → Handled
invalid lib net conn s = handled s (admin_reply lib net conn false "invalid payload" [])

-- The answer of a client goes on to the administrator as it is.
abbrev pub pass_on : Net → ℕ → Message → List Write
pass_on net conn resp = send net (conn, new_message msg_response 0 resp.payload)

kick_known : Library → Net → ℕ → String → Server → Option ClientSession → Handled
kick_known lib net conn name s none =
    handled s
      (admin_reply lib net conn false (lib.sprintf "client %q not found" (Arg.text name ∷ [])) [])
kick_known lib net conn name s (some client) =
    handled (drop_client name s)
      (admin_reply lib net conn true (lib.sprintf "client %q kicked" (Arg.text name ∷ [])) [])

kick_named : Library → Net → ℕ → Server → Option KickPayload → Handled
unfolding kick_known
kick_named lib net conn s none = invalid lib net conn s
kick_named lib net conn s (some kick) =
    kick_known lib net conn kick.client_name s (get_client kick.client_name s.registry)

-- case proto.MsgKickClient
unfoldable pub handle_kick : Library → Net → ℕ → Message → Server → Handled
unfolding kick_named
handle_kick lib net conn msg s = kick_named lib net conn s (decode_json lib.kick msg.payload)

-- The reply after a rule was stored or removed, when the client has answered or not.
pub answered : Library → Net → ℕ → String → List Write → Result String Message → Server → Handled
answered lib net conn format ws (err e) s =
    handled s (ws ++ admin_reply lib net conn true (lib.sprintf format (Arg.text e ∷ [])) [])
answered lib net conn format ws (ok resp) s = handled s (ws ++ pass_on net conn resp)

add_forward_of :
    Library
    → Net
    → WriteOutcome
    → Meanwhile
    → ℕ
    → Message
    → Server
    → Option AddForwardPayload
    → Handled
unfolding answered
add_forward_of lib net w meanwhile conn msg s none = invalid lib net conn s
add_forward_of lib net w meanwhile conn msg s (some req) =
    let fwd_info : ForwardInfo = record {
      client_name = req.client_name;
      listen_addr = req.listen_addr;
      remote_client = req.remote_client;
      remote_service = req.remote_service;
      protocol = req.protocol;
    } in
    let stored = record s {
      store = (add_forward lib.clients w req.client_name fwd_info s.store).0;
    } in
    let (r, ws) =
      forward_to_client_and_wait lib net meanwhile req.client_name msg_add_forward msg.payload
        stored in
    answered lib net conn "forward rule saved (client offline: %s)" ws r.0 r.1

unfoldable pub handle_admin_add_forward :
    Library → Net → WriteOutcome → Meanwhile → ℕ → Message → Server → Handled
unfolding add_forward_of
handle_admin_add_forward lib net w meanwhile conn msg s =
    add_forward_of lib net w meanwhile conn msg s (decode_json lib.add_forward msg.payload)

forward_removed :
    Library
    → Net
    → Meanwhile
    → ℕ
    → Message
    → RemoveForwardPayload
    → Server
    → Return Saved
    → Return Handled
unfolding answered
forward_removed lib net meanwhile conn msg req s panics = panics
forward_removed lib net meanwhile conn msg req s (returns saved) =
    let (r, ws) =
      forward_to_client_and_wait lib net meanwhile req.client_name msg_remove_forward msg.payload
        (record s { store = saved.0 }) in
    returns
      (answered lib net conn "forward rule removed from store (client offline: %s)" ws r.0 r.1)

remove_forward_of :
    Library
    → Net
    → WriteOutcome
    → Meanwhile
    → ℕ
    → Message
    → Server
    → Option RemoveForwardPayload
    → Return Handled
unfolding forward_removed
remove_forward_of lib net w meanwhile conn msg s none = returns (invalid lib net conn s)
remove_forward_of lib net w meanwhile conn msg s (some req) =
    forward_removed lib net meanwhile conn msg req s
      (remove_forward lib.clients w req.client_name req.listen_addr s.store)

unfoldable pub handle_admin_remove_forward :
    Library → Net → WriteOutcome → Meanwhile → ℕ → Message → Server → Return Handled
unfolding remove_forward_of
handle_admin_remove_forward lib net w meanwhile conn msg s =
    remove_forward_of lib net w meanwhile conn msg s (decode_json lib.remove_forward msg.payload)

-- The reply to a change of the expose rules, which starts a push if the store was saved.
pub saved_reply : Library → Net → ℕ → String → String → Server → Option SaveError → Handled
saved_reply lib net conn client_name message s (some e) = handled s (
    admin_reply lib net conn false
      (lib.sprintf "store error: %s" (Arg.text (lib.save_error e) ∷ [])) [])
saved_reply lib net conn client_name message s none = record {
  server = s;
  writes = admin_reply lib net conn true message [];
  pushes = client_name ∷ [];
}

-- if req.Rule.Protocol == "" { req.Rule.Protocol = "tcp" }
abbrev pub with_protocol : ExposeRule → ExposeRule
with_protocol rule = record rule { protocol = if rule.protocol == "" then "tcp" else rule.protocol }

add_expose_of : Library → Net → WriteOutcome → ℕ → Server → Option AddExposePayload → Handled
unfolding saved_reply
add_expose_of lib net w conn s none = invalid lib net conn s
add_expose_of lib net w conn s (some req) =
    let (store', e) = add_expose lib.clients w req.client_name (with_protocol req.rule) s.store in
    saved_reply lib net conn req.client_name
      (lib.sprintf "expose rule %q saved for client %q"
        (Arg.text req.rule.name ∷ Arg.text req.client_name ∷ []))
      (record s { store = store' }) e

unfoldable pub handle_admin_add_expose :
    Library → Net → WriteOutcome → ℕ → Message → Server → Handled
unfolding add_expose_of
handle_admin_add_expose lib net w conn msg s =
    add_expose_of lib net w conn s (decode_json lib.add_expose msg.payload)

expose_removed : Library → Net → ℕ → RemoveExposePayload → Server → Return Saved → Return Handled
unfolding saved_reply
expose_removed lib net conn req s panics = panics
expose_removed lib net conn req s (returns saved) = returns (
    saved_reply lib net conn req.client_name
      (lib.sprintf "expose rule %q removed from client %q"
        (Arg.text req.service_name ∷ Arg.text req.client_name ∷ []))
      (record s { store = saved.0 }) saved.1)

remove_expose_of :
    Library → Net → WriteOutcome → ℕ → Server → Option RemoveExposePayload → Return Handled
unfolding expose_removed
remove_expose_of lib net w conn s none = returns (invalid lib net conn s)
remove_expose_of lib net w conn s (some req) =
    expose_removed lib net conn req s
      (remove_expose lib.clients w req.client_name req.service_name s.store)

unfoldable pub handle_admin_remove_expose :
    Library → Net → WriteOutcome → ℕ → Message → Server → Return Handled
unfolding remove_expose_of
handle_admin_remove_expose lib net w conn msg s =
    remove_expose_of lib net w conn s (decode_json lib.remove_expose msg.payload)
