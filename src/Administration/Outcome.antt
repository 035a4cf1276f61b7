-- ===== src/Administration/Outcome.antt =====
-- What the commands of an administrator come to: what the program returns and prints, and what the
-- server has then.
use clienthub.Prelude.{
  ℕ, ◌≡◌, refl, ap, ◌∙◌, String, false, Option, none, some, List, [], ◌∷◌, ==_iff, ==_refl, nat_eq,
  string_eq, ok, arith,
}
use clienthub.Proto.Message.{
  Message, MsgType, new_message, msg_response, msg_add_expose, msg_kick_client,
}
use clienthub.Proto.Payload.{ResponsePayload, KickPayload, ExposeRule, encode_json, decode_json}
use clienthub.Crypto.{Primitives, IsCorrect}
use clienthub.Proto.Message.{Bytes}
use clienthub.Config.{or_tcp}
use clienthub.Registry.{get_client}
use clienthub.Store.{SaveError, returns}
use clienthub.Store as Store
use clienthub.Store.Lookup.{find_expose}
use clienthub.Server.State.{Server, Library, Arg}
use clienthub.Server.Pending.{Meanwhile}
use clienthub.Server.Admin.{Handled, handled, handle_admin_add_expose, with_protocol}
use clienthub.Server.Admin.Effects.{handle_admin_add_expose_stores}
use clienthub.Server.Admin.Replies.{
  replied, saved_response, exposed, unknown, writes-handle_admin_add_expose, handle_kick_absent,
}
use clienthub.Server.Admin.Dispatch.{Surroundings, handle_admin_message}
use clienthub.Manager.{Manager, Event, Event.opened, Event.closed, Event.wrote, hello, send_command}
use clienthub.Manager.Commands.{checks, add_expose, kick_client, expose_payload}
use clienthub.Administration.{IsTrusted, served, send_command-handle_admin_message}

-- The protocol that the program fills in is kept by the server.
with_protocol-or_tcp :
    (r : ExposeRule)
    → with_protocol (record r { protocol = or_tcp r.protocol })
      ≡ record r { protocol = or_tcp r.protocol }
with_protocol-or_tcp r =
    ap (λ t. record r { protocol = t })
      (ground (arith, ==_iff r.protocol "", ==_iff {T = String} "tcp" ""))

-- What the program makes of an error of the store.
abbrev pub store_error : Library → Option SaveError → Option String
store_error lib none = none
store_error lib (some e) = some (
    lib.sprintf "%s"
      (Arg.text (lib.sprintf "store error: %s" (Arg.text (lib.save_error e) ∷ [])) ∷ []))

error-checks :
    (lib : Library) (message : String) (o : Option SaveError) (es : List Event)
    → (checks lib (ok (saved_response lib message o), es)).error ≡ store_error lib o
error-checks lib message none es = refl
error-checks lib message (some e) es = refl

module _ (p : Primitives) (correct : IsCorrect p) (key : Bytes) (lib : Library) (w : Surroundings)
    (wait : Meanwhile) (conn : ℕ) (s : Server) (m : Manager) where
  -- The server trusts the administrator, every write to it succeeds, and this response is decoded as
  -- it was.
  pub record IsServed (r : ResponsePayload) : Type 0 where
    pub trusted : IsTrusted p correct key lib w wait conn s m
    pub up : (msg : Message) → w.net (conn, msg) ≡ none
    pub decodes : decode_json lib.response (encode_json lib.response r) ≡ some r

  answer :
      (msg_type : MsgType) (payload : Bytes) (h : Handled) (r : ResponsePayload)
      → let msg = new_message msg_type 0 payload in
        IsServed r
        → handle_admin_message lib w wait conn msg s ≡ returns h
        → h.writes ≡ replied lib conn r
        → send_command p lib (served p correct key lib w wait conn s m) msg_type payload m
          ≡ (ok r, opened ∷ wrote (hello p lib m) ∷ wrote msg ∷ closed ∷ [])
  answer msg_type payload h r v e f =
      send_command-handle_admin_message p correct key lib w wait conn s m msg_type payload h
        (new_message msg_response 0 (encode_json lib.response r)) r v.trusted e
        (rw f (rw (==_refl conn) refl)) refl v.decodes

  -- Where the server trusts the administrator, every write on the connection succeeds, and the request
  -- and the response are decoded as they were, the command that adds an expose rule returns no error
  -- exactly if the server could save the rule, and the server's error if not; either way the rule is
  -- in force there, with the protocol tcp if none was given.
  pub add_expose-handle_admin_message :
      (client_name name local_addr protocol : String)
      → let req = expose_payload client_name name local_addr protocol in
        IsServed (
          saved_response lib
            (exposed lib req)
            (Store.add_expose lib.clients w.disk client_name req.rule s.store).1)
        → decode_json lib.add_expose (encode_json lib.add_expose req) ≡ some req
        → (h : Handled) × (handle_admin_message lib w wait conn
              (new_message msg_add_expose 0 (encode_json lib.add_expose req))
              s
            ≡ returns h)
          × (find_expose client_name name h.server.store ≡ some req.rule)
          × ((add_expose p lib
                (served p correct key lib w wait conn s m)
                m
                client_name
                name
                local_addr
                protocol).error
              ≡ store_error lib
                  (Store.add_expose lib.clients w.disk client_name req.rule s.store).1)
  unfolding add_expose handle_admin_message
  add_expose-handle_admin_message client_name name local_addr protocol v d =
      let req = expose_payload client_name name local_addr protocol in
      let msg = new_message msg_add_expose 0 (encode_json lib.add_expose req) in
      let raw : ExposeRule = record { name = name; local_addr = local_addr; protocol = protocol } in
      let kept = with_protocol-or_tcp raw in
      let h = handle_admin_add_expose lib w.net w.disk conn msg s in
      let ws = writes-handle_admin_add_expose lib w.net conn msg s v.up w.disk req d in
      let there =
        handle_admin_add_expose_stores lib w.net w.disk conn msg s req client_name name d in
      (
        h,
        refl,
        there.0 ∙ rw (==_refl client_name, ==_refl name, kept) refl,
        ap (λ a. (checks lib a).error)
              (answer msg_add_expose (encode_json lib.add_expose req) h _ v refl (rw kept at ws))
            ∙ error-checks lib (exposed lib req) _ _,
      )

  -- The command that kicks a client which is not connected returns no error, though the server says
  -- that it failed, and changes nothing there.
  pub kick_client_absent :
      (name : String)
      → let kick : KickPayload = record { client_name = name } in
        IsServed (unknown lib name)
        → decode_json lib.kick (encode_json lib.kick kick) ≡ some kick
        → get_client name s.registry ≡ none
        → (handle_admin_message lib w wait conn
              (new_message msg_kick_client 0 (encode_json lib.kick kick))
              s
            ≡ returns (handled s (replied lib conn (unknown lib name))))
          × ((kick_client p lib (served p correct key lib w wait conn s m) m name).error ≡ none)
          × ((unknown lib name).success ≡ false)
  unfolding kick_client handle_admin_message
  kick_client_absent name v d e =
      let kick : KickPayload = record { client_name = name } in
      let payload = encode_json lib.kick kick in
      let same =
        handle_kick_absent lib w.net conn (new_message msg_kick_client 0 payload) s v.up kick d e in
      let h = handled s (replied lib conn (unknown lib name)) in
      (
        rw same refl,
        rw (answer msg_kick_client payload h (unknown lib name) v (rw same refl) refl) refl,
        refl,
      )
