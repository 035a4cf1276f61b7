-- ===== src/Examples/Sessions.antt =====
-- Who gets a session, and the client that connects again.
use clienthub.Prelude.{◌≡◌, refl, none, some, [], ◌∷◌}
use clienthub.Proto.Message.{Message}
use clienthub.Proto.Payload.{AuthPayload}
use clienthub.Crypto.{compute_auth_token}
use clienthub.Registry.{get_client}
use clienthub.Server.Session.{accept_client, end_client, new_session}
use clienthub.Server.Session.Authentication.{IsProof, accept_client_sound, accept_client_complete}
use clienthub.Server.Session.Replacement.{replaced_session_dropped}
use clienthub.Examples.World.{
  primitives, primitives-IsCorrect, key, lib, good_net, server, first, alice_auth, alice,
}

first-IsProof : IsProof primitives key lib first alice_auth
unfolding compute_auth_token
first-IsProof = record { is_auth = refl; readable = refl; token = refl }

alice_admitted :
    (accept_client primitives key lib good_net 8 0 (some first) server).2 ≡ some "alice"
alice_admitted =
    (accept_client_complete primitives primitives-IsCorrect key lib good_net 8 0 server first
      alice_auth first-IsProof refl).0

accept_client_sound_example :
    (msg : Message) × (auth : AuthPayload) × (some first ≡ some msg)
    × IsProof primitives key lib msg auth
    × (auth.client_name ≡ "alice")
    × (get_client "alice"
          (accept_client primitives key lib good_net 8 0 (some first) server).0.registry
        ≡ some (new_session "alice" 8 0))
accept_client_sound_example =
    accept_client_sound primitives primitives-IsCorrect key lib good_net 8 0 server (some first)
      {name = "alice"} alice_admitted

replaced_session_dropped_example :
    let s' = (accept_client primitives key lib good_net 8 0 (some first) server).0 in
    let s'' = end_client "alice" s' in
    (get_client "alice" s'.registry ≡ some (new_session "alice" 8 0))
    × (s'.closed ≡ 1 ∷ [])
    × (get_client "alice" s''.registry ≡ none)
    × (s''.closed ≡ 8 ∷ (1 ∷ []))
unfolding get_client
replaced_session_dropped_example =
    replaced_session_dropped primitives primitives-IsCorrect key lib good_net 8 0 server first
      alice_auth alice first-IsProof refl refl
