-- ===== src/Server/Session/Sections.antt =====
-- The critical sections that handleClient and handleMessage are made of.
use clienthub.Prelude.{
  ℕ, String, Bool, true, false, ◌||◌, Option, none, some, Option-cases, Bool-cases, inl, inr, ◌==◌,
  nat_eq, if◌then◌else◌,
}
use clienthub.Proto.Message.{
  Bytes, Message, msg_auth, msg_register, msg_open_tunnel, msg_data, msg_data_udp, msg_close,
  msg_heartbeat, msg_response,
}
use clienthub.Proto.Payload.{AuthPayload, Codec, decode_json}
use clienthub.Crypto.{Primitives, verify_auth_token}
use clienthub.Registry.{get_client}
use clienthub.Relay.{forward_close}
use clienthub.Relay.Routes.{forward_close-outcome}
use clienthub.Store.{Clients}
use clienthub.Server.State.{Server, Library, Net, drop_client}
use clienthub.Server.Session.{
  accept_client, handle_message, end_client, admit, check_token, kick_existing, greeted,
  new_session, auth_ok,
}
use clienthub.Server.OpenTunnel.Sections.{handle_register-Reaches, handle_open_tunnel-Reaches}
use clienthub.Server.Steps.{Step, Reaches, here, next, one, IsNew}
use clienthub.Server.Steps.Connections.{drop_client-IsNew}

module _ (codec : Codec Clients) (lib : Library) (net : Net) where
  greeted-Reaches :
      (name : String) (conn : ℕ) (s t : Server) (o : Option String)
      → Reaches codec s t
      → Reaches codec s (greeted name conn t o).0
  unfolding greeted
  greeted-Reaches name conn s t none r = r
  greeted-Reaches name conn s t (some e) r = next r (Step.drops t name)

  admit-Reaches :
      (conn now : ℕ) (name : String) (s : Server)
      → IsNew conn s
      → Reaches codec s (admit net conn now name s).0
  unfolding admit
  admit-Reaches conn now name s new = elim (Option-cases (get_client name s.registry)) [
    | inl e ↦
        rw (e, kick_existing)
          (greeted-Reaches name conn s _ (net (auth_ok conn))
            (one codec (Step.adds s (new_session name conn now) new)))
    | inr (old, e) ↦
        rw (e, kick_existing)
          (greeted-Reaches name conn s _ (net (auth_ok conn)) (
            next (one codec (Step.drops s name)) (
              Step.adds (drop_client name s) (new_session name conn now)
                (drop_client-IsNew name conn s new))))
  ]

  check_token-Reaches :
      (p : Primitives) (key : Bytes) (conn now : ℕ) (s : Server) (o : Option AuthPayload)
      → IsNew conn s
      → Reaches codec s (check_token p key lib net conn now s o).0
  unfolding check_token
  check_token-Reaches p key conn now s none new = one codec (Step.closes s conn new)
  check_token-Reaches p key conn now s (some auth) new =
      elim (Bool-cases (verify_auth_token p auth.client_name auth.token key)) [
        | inl e ↦ rw e (admit-Reaches conn now auth.client_name s new)
        | inr e ↦ rw e (one codec (Step.closes s conn new))
      ]

  -- Accepting a connection is made of critical sections, if its socket is new.
  pub accept_client-Reaches :
      (p : Primitives) (key : Bytes) (conn now : ℕ) (o : Option Message) (s : Server)
      → IsNew conn s
      → Reaches codec s (accept_client p key lib net conn now o s).0
  unfolding accept_client
  accept_client-Reaches p key conn now none s new = one codec (Step.closes s conn new)
  accept_client-Reaches p key conn now (some msg) s new = elim (Bool-cases (msg.type == msg_auth)) [
    | inl e ↦ rw e (check_token-Reaches p key conn now s (decode_json lib.auth msg.payload) new)
    | inr e ↦ rw e (one codec (Step.closes s conn new))
  ]

  pub end_client-Reaches : (name : String) (s : Server) → Reaches codec s (end_client name s)
  unfolding end_client
  end_client-Reaches name s = one codec (Step.drops s name)

  closing-Reaches :
      (name : String) (msg : Message) (s : Server)
      → Reaches codec s (record s { registry = (forward_close name msg s.registry).1 })
  closing-Reaches name msg s = elim (forward_close-outcome name msg s.registry) [
    | inl e ↦ rw e here
    | inr e ↦ rw e (one codec (Step.ends_tunnel s msg.session_id))
  ]

  -- So is the handling of each message.
  pub handle_message-Reaches :
      (now conn : ℕ) (name : String) (msg : Message) (s : Server)
      → Reaches codec s (handle_message lib net now conn name msg s).0
  unfolding handle_message
  handle_message-Reaches now conn name msg s =
      case (msg.type == msg_register) _ _ (handle_register-Reaches codec lib name msg s) (
        case (msg.type == msg_open_tunnel) _ _
          (handle_open_tunnel-Reaches codec lib net now conn name msg s)
          (case (msg.type == msg_data || msg.type == msg_data_udp) _ _ here (
            case (msg.type == msg_close) _ _ (closing-Reaches name msg s) (
              case (msg.type == msg_heartbeat) _ _ here
                (case (msg.type == msg_response) _ _ (one codec (Step.answers s msg)) here)))))
    where
      case :
          {B : Type 0} (b : Bool) (t u : Server × B)
          → Reaches codec s t.0
          → Reaches codec s u.0
          → Reaches codec s (if b then t else u).0
      case true t u x y = x
      case false t u x y = y
