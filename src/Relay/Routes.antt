-- ===== src/Relay/Routes.antt =====
-- To whom the relay writes, and what it does to the tunnels.
use clienthub.Prelude.{
  ℕ, ◌≡◌, ◌≢◌, refl, String, false, Option, none, some, ◌==◌, ==_iff, ==_refl, string_eq, nat_eq,
  if◌then◌else◌, arith, ◌⊎◌, inl, inr, Option-cases, Bool-cases,
}
use clienthub.Proto.Message.{Message}
use clienthub.Registry.{
  Registry, ClientSession, TunnelSession, get_client, get_tunnel, involves, remove_tunnel,
}
use clienthub.Registry.Laws.{get_tunnel-remove_tunnel}
use clienthub.Relay.{write_to, forward_data, forward_close, relay_close}

-- `other` is the end of the tunnel that faces `sender`.
abbrev pub Faces : String → TunnelSession → String → Type 0
Faces sender t other =
    ((sender ≡ t.source_client) × (other ≡ t.target_client))
    ⊎ ((sender ≡ t.target_client) × (other ≡ t.source_client))

write_to-some :
    (msg : Message) (o : Option ClientSession) {conn : ℕ} {m : Message}
    → write_to msg o ≡ some (conn, m)
    → (s : ClientSession) × (o ≡ some s) × (s.conn ≡ conn) × (m ≡ msg)
write_to-some msg none e = cc
write_to-some msg (some s) e = (s, refl, ground arith, ground arith)

-- What ForwardData writes is the message unchanged, and it goes to a connected client that faces the
-- sender in the tunnel that the message names.
pub forward_data_sound :
    (sender : String) (msg m : Message) (conn : ℕ) (r : Registry)
    → forward_data sender msg r ≡ some (conn, m)
    → (t : TunnelSession) × (other : ClientSession) × (other_name : String) × (get_tunnel
          msg.session_id r
        ≡ some t)
      × Faces sender t other_name
      × (get_client other_name r ≡ some other)
      × (other.conn ≡ conn)
      × (m ≡ msg)
unfolding forward_data
forward_data_sound sender msg m conn r e = elim (Option-cases (get_tunnel msg.session_id r)) [
  | inl f ↦ cc (rw (f, forward_data) at e)
  | inr (t, f) ↦ elim (Bool-cases (sender == t.source_client)) [
    | inl from_source ↦
        let (other, g, c, d) =
          write_to-some msg (get_client t.target_client r) {conn = conn} {m = m} (ground arith) in
        (
          t,
          other,
          t.target_client,
          f,
          inl ((==_iff sender t.source_client).0 from_source, refl),
          g,
          c,
          d,
        )
    | inr not_source ↦ elim (Bool-cases (sender == t.target_client)) [
      | inl from_target ↦
          let (other, g, c, d) =
            write_to-some msg (get_client t.source_client r) {conn = conn} {m = m} (ground arith) in
          (
            t,
            other,
            t.source_client,
            f,
            inr ((==_iff sender t.target_client).0 from_target, refl),
            g,
            c,
            d,
          )
      | inr neither ↦ absurd (ground arith)
    ]
  ]
]

-- Of two connected clients that are the ends of a live tunnel, the source reaches the target, and
-- the target reaches the source if their names differ.
pub forward_data_complete :
    (msg : Message) (r : Registry) (t : TunnelSession) (source target : ClientSession)
    → get_tunnel msg.session_id r ≡ some t
    → get_client t.source_client r ≡ some source
    → get_client t.target_client r ≡ some target
    → (forward_data t.source_client msg r ≡ some (target.conn, msg))
      × (t.source_client ≢ t.target_client
          → forward_data t.target_client msg r ≡ some (source.conn, msg))
unfolding forward_data
forward_data_complete msg r t source target et es etg = (
  ground (arith, ==_refl t.source_client),
  λ ne. ground (arith, ==_refl t.target_client, ==_iff t.target_client t.source_client),
)

-- ForwardClose ends the tunnel that the message names, and no other tunnel.
pub get_tunnel-forward_close :
    (sender : String) (msg : Message) (id : ℕ) (r : Registry)
    → get_tunnel id (forward_close sender msg r).1
      ≡ (if msg.session_id == id then none else get_tunnel id r)
unfolding forward_close
get_tunnel-forward_close sender msg id r =
    ground (arith, ==_iff msg.session_id id, get_tunnel-remove_tunnel msg.session_id id r)

-- ForwardClose does not ask whether the sender is an end of the tunnel: a client that is none ends
-- a live tunnel all the same, and the closing goes to the source alone. ForwardData drops such a
-- message.
pub forward_close_by_stranger :
    (sender : String) (msg : Message) (r : Registry) (t : TunnelSession)
    → get_tunnel msg.session_id r ≡ some t
    → involves sender t ≡ false
    → (forward_data sender msg r ≡ none)
      × (get_tunnel msg.session_id (forward_close sender msg r).1 ≡ none)
      × ((forward_close sender msg r).0 ≡ write_to msg (get_client t.source_client r))
unfolding forward_data forward_close
forward_close_by_stranger sender msg r t e s = ground (
  arith,
  ==_iff sender t.source_client,
  ==_iff t.source_client sender,
  ==_iff sender t.target_client,
  ==_iff t.target_client sender,
  ==_refl msg.session_id,
  get_tunnel-remove_tunnel msg.session_id msg.session_id r,
)

-- A closing removes its tunnel, or leaves the registry as it is.
pub forward_close-outcome :
    (sender_name : String) (msg : Message) (r : Registry)
    → ((forward_close sender_name msg r).1 ≡ r)
      ⊎ ((forward_close sender_name msg r).1 ≡ remove_tunnel msg.session_id r)
unfolding forward_close
forward_close-outcome sender_name msg r = elim (Option-cases (get_tunnel msg.session_id r)) [
  | inl e ↦ inl (rw (e, relay_close) refl)
  | inr (t, e) ↦ inr (rw (e, relay_close) refl)
]
