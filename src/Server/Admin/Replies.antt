-- ===== src/Server/Admin/Replies.antt =====
-- What an administrator is told, where the answer can be written.
use clienthub.Prelude.{
  ℕ, ◌≡◌, refl, String, true, false, Option, none, some, List, [], ◌∷◌, Option-cases, inl, inr,
}
use clienthub.Proto.Message.{Message, new_message, msg_response}
use clienthub.Proto.Payload.{
  KickPayload, AddExposePayload, ResponsePayload, encode_json, decode_json,
}
use clienthub.Registry.{get_client}
use clienthub.Relay.{Write}
use clienthub.Store.{SaveError, WriteOutcome, add_expose}
use clienthub.Server.State.{Server, Library, Net, Arg}
use clienthub.Server.Admin.{
  handled, handle_kick, kick_named, kick_known, handle_admin_add_expose, add_expose_of, saved_reply,
  with_protocol,
}

abbrev pub replied : Library → ℕ → ResponsePayload → List Write
replied lib conn r = (conn, new_message msg_response 0 (encode_json lib.response r)) ∷ []

-- A change that was saved, or one that is only in memory.
abbrev pub saved_response : Library → String → Option SaveError → ResponsePayload
saved_response lib message none = record { success = true; message = message; raw = [] }
saved_response lib message (some e) = record {
  success = false;
  message = lib.sprintf "store error: %s" (Arg.text (lib.save_error e) ∷ []);
  raw = [];
}

abbrev pub exposed : Library → AddExposePayload → String
exposed lib req =
    lib.sprintf "expose rule %q saved for client %q"
      (Arg.text req.rule.name ∷ Arg.text req.client_name ∷ [])

abbrev pub unknown : Library → String → ResponsePayload
unknown lib name = record {
  success = false;
  message = lib.sprintf "client %q not found" (Arg.text name ∷ []);
  raw = [];
}

module _ (lib : Library) (net : Net) (conn : ℕ) (msg : Message) (s : Server)
    (up : (m : Message) → net (conn, m) ≡ none) where
  pub writes-handle_admin_add_expose :
      (w : WriteOutcome) (req : AddExposePayload)
      → decode_json lib.add_expose msg.payload ≡ some req
      → (handle_admin_add_expose lib net w conn msg s).writes
        ≡ replied lib conn (
            saved_response lib
              (exposed lib req)
              (add_expose lib.clients w req.client_name (with_protocol req.rule) s.store).1)
  unfolding handle_admin_add_expose saved_reply
  writes-handle_admin_add_expose w req d =
      rw (d, add_expose_of)
        (elim (Option-cases
          (add_expose lib.clients w req.client_name (with_protocol req.rule) s.store).1) [
            | inl e ↦ rw e (rw up refl)
            | inr (why, e) ↦ rw e (rw up refl)
          ])

  pub handle_kick_absent :
      (kick : KickPayload)
      → decode_json lib.kick msg.payload ≡ some kick
      → get_client kick.client_name s.registry ≡ none
      → handle_kick lib net conn msg s ≡ handled s (replied lib conn (unknown lib kick.client_name))
  unfolding handle_kick
  handle_kick_absent kick d e = rw (d, kick_named) (rw (e, kick_known) (rw up refl))
