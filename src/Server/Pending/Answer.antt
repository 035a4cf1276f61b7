-- ===== src/Server/Pending/Answer.antt =====
-- Which answer a waiting request gets.
use clienthub.Prelude.{
  ℕ, ◌<◌, ◌≡◌, ◌≢◌, refl, ap, ◌∙◌, String, true, Option, none, some, List, [], ◌∷◌, Map, lookup,
  ◌⊎◌, insert, delete, ◌==◌, ==_iff, ==_refl, nat_eq, if◌then◌else◌, arith, lookup-insert,
  lookup-delete, Option-cases, Bool-cases, inl, inr,
}
use clienthub.Proto.Message.{Bytes, Message, MsgType, new_message}
use clienthub.Registry.{ClientSession, get_client}
use clienthub.Server.State.{Server, Library, Net}
use clienthub.Server.Pending.{
  handle_client_response, forward_to_client_and_wait, Meanwhile, received, answer, offer, ask,
  after_write, wait, next_id, filed,
}

-- The responses that the other goroutines handle, in their order.
pub answers : List Message → Server → Server
answers [] s = s
answers (m ∷ ms) s = answers ms (handle_client_response m s)

-- The first response that names the request.
abbrev pub first_answer : ℕ → List Message → Option Message
first_answer req_id [] = none
first_answer req_id (m ∷ ms) = if m.session_id == req_id then some m else first_answer req_id ms

-- A response leaves the server as it is, or ends one request and offers itself on its channel.
pub handle_client_response-outcome :
    (m : Message) (s : Server)
    → (handle_client_response m s ≡ s)
      ⊎ ((ch : ℕ) × (handle_client_response m s ≡ record s {
        pending_reqs = delete m.session_id s.pending_reqs;
        channels = insert ch (offer m (lookup ch s.channels)) s.channels;
      }))
unfolding handle_client_response
handle_client_response-outcome m s = elim (Option-cases (lookup m.session_id s.pending_reqs)) [
  | inl e ↦ inl (rw (e, answer) refl)
  | inr (ch, e) ↦ inr (ch, rw (e, answer) refl)
]

-- No waiting request has the channel.
abbrev Unused : ℕ → Server → Type 0
Unused ch s = (id : ℕ) → lookup id s.pending_reqs ≢ some ch

-- No request but one has the channel.
abbrev Owned : ℕ → ℕ → Server → Type 0
Owned req_id ch s = (id : ℕ) → lookup id s.pending_reqs ≡ some ch → id ≡ req_id

-- A channel that no request has keeps its content.
response-Unused :
    (ch : ℕ) (m : Message) (s : Server)
    → Unused ch s
    → Unused ch (handle_client_response m s)
      × (lookup ch (handle_client_response m s).channels ≡ lookup ch s.channels)
unfolding handle_client_response
response-Unused ch m s h = elim (Option-cases (lookup m.session_id s.pending_reqs)) [
  | inl e ↦ rw (e, answer) (h, refl)
  | inr (c, e) ↦
      rw (e, answer)
        (
          λ id g. h id (ground (arith, lookup-delete m.session_id id s.pending_reqs, g)),
          ground (
            arith,
            lookup-insert c ch (offer m (lookup c s.channels)) s.channels,
            ==_iff c ch,
            h m.session_id,
          ),
        )
]

answers-Unused :
    (ch : ℕ) (ms : List Message) (s : Server)
    → Unused ch s
    → lookup ch (answers ms s).channels ≡ lookup ch s.channels
unfolding answers
answers-Unused ch [] s h = refl
answers-Unused ch (m ∷ ms) s h =
    let (u, e) = response-Unused ch m s h in answers-Unused ch ms (handle_client_response m s) u ∙ e

-- A request waits on its own, empty channel.
record Waits (req_id ch : ℕ) (s : Server) : Type 0 where
  filed : lookup req_id s.pending_reqs ≡ some ch
  owned : Owned req_id ch s
  empty : lookup ch s.channels ≡ some none

-- The response that names the request fills its channel, and frees the channel's place.
response-Waits_hit :
    (req_id ch : ℕ) (m : Message) (s : Server)
    → m.session_id ≡ req_id
    → Waits req_id ch s
    → Unused ch (handle_client_response m s)
      × (lookup ch (handle_client_response m s).channels ≡ some (some m))
unfolding handle_client_response
response-Waits_hit req_id ch m s hit w =
    let e = ap (λ id. lookup id s.pending_reqs) hit ∙ w.filed in
    rw (e, answer)
      (
        λ id g. ground (
          arith,
          lookup-delete m.session_id id s.pending_reqs,
          ==_iff m.session_id id,
          g,
          w.owned id,
        ),
        ground (
          arith,
          lookup-insert ch ch (offer m (lookup ch s.channels)) s.channels,
          ==_refl ch,
          w.empty,
        ),
      )

-- Any other response leaves it waiting.
response-Waits_miss :
    (req_id ch : ℕ) (m : Message) (s : Server)
    → m.session_id ≢ req_id
    → Waits req_id ch s
    → Waits req_id ch (handle_client_response m s)
unfolding handle_client_response
response-Waits_miss req_id ch m s miss w =
    elim (Option-cases (lookup m.session_id s.pending_reqs)) [
      | inl e ↦ rw (e, answer) w
      | inr (c, e) ↦
          rw (e, answer)
            (record {
              filed = ground (
                arith,
                lookup-delete m.session_id req_id s.pending_reqs,
                ==_iff m.session_id req_id,
                w.filed,
              );
              owned = λ id g.
                  w.owned id (ground (arith, lookup-delete m.session_id id s.pending_reqs, g));
              empty = ground (
                arith,
                lookup-insert c ch (offer m (lookup c s.channels)) s.channels,
                ==_iff c ch,
                w.owned m.session_id,
                w.empty,
              );
            })
    ]

answers-Waits :
    (req_id ch : ℕ) (ms : List Message) (s : Server)
    → Waits req_id ch s
    → lookup ch (answers ms s).channels ≡ some (first_answer req_id ms)
unfolding answers
answers-Waits req_id ch [] s w = w.empty
answers-Waits req_id ch (m ∷ ms) s w = elim (Bool-cases (m.session_id == req_id)) [
  | inl hit ↦
      let (u, e) = response-Waits_hit req_id ch m s ((==_iff m.session_id req_id).0 hit) w in
      rw hit (answers-Unused ch ms (handle_client_response m s) u ∙ e)
  | inr miss ↦ rw miss (
      answers-Waits req_id ch ms (handle_client_response m s)
        (response-Waits_miss req_id ch m s (λ e. ground (arith, ==_iff m.session_id req_id)) w))
]

-- Every channel that a request waits on was made before.
pub record HasOldChannels (s : Server) : Type 0 where
  pub old : (id c : ℕ) → lookup id s.pending_reqs ≡ some c → c < s.next_channel

forget-lookup : (id : ℕ) (m : Map ℕ ℕ) → lookup id (delete id m) ≡ none
forget-lookup id m = ground (arith, lookup-delete id id m, ==_refl id)

filed-Waits : (s : Server) → HasOldChannels s → Waits (next_id s) s.next_channel (filed s)
filed-Waits s h = record {
  filed = ground (
    arith,
    lookup-insert (next_id s) (next_id s) s.next_channel s.pending_reqs,
    ==_refl (next_id s),
  );
  owned = λ id g. ground (
    arith,
    lookup-insert (next_id s) id s.next_channel s.pending_reqs,
    ==_iff (next_id s) id,
    h.old id s.next_channel,
    g,
  );
  empty =
      ground (
        arith,
        lookup-insert s.next_channel s.next_channel none s.channels,
        ==_refl s.next_channel,
      );
}

module _ (lib : Library) (net : Net) (name : String) (msg_type : MsgType) (payload : Bytes)
    (s : Server) where
  -- Where every waiting request has a channel that was made before, the request to a connected
  -- client whose write succeeds returns the first of the responses that arrive meanwhile and name
  -- it, from whichever client, and times out if there is none.
  pub forward_to_client_and_wait_answered :
      (client : ClientSession) (ms : List Message)
      → HasOldChannels s
      → get_client name s.registry ≡ some client
      → net (client.conn, new_message msg_type (next_id s) payload) ≡ none
      → (forward_to_client_and_wait lib net (λ t. (answers ms t, true)) name msg_type payload s).0.0
        ≡ received (some (first_answer (next_id s) ms)) true
  unfolding forward_to_client_and_wait wait
  forward_to_client_and_wait_answered client ms h g e =
      rw (g, ask)
        (rw (e, after_write)
          (ap (λ o. received o true)
            (answers-Waits (next_id s) s.next_channel ms (filed s) (filed-Waits s h))))

  -- Whatever happens meanwhile, and whether it succeeds or not, the request is not pending any more
  -- when it returns to its caller, if the client is connected.
  pub forward_to_client_and_wait_forgets :
      (meanwhile : Meanwhile) (client : ClientSession)
      → get_client name s.registry ≡ some client
      → lookup
          (next_id s)
          (forward_to_client_and_wait lib net meanwhile name msg_type payload s).0.1.pending_reqs
        ≡ none
  unfolding forward_to_client_and_wait
  forward_to_client_and_wait_forgets meanwhile client g =
      rw (g, ask) (forgets (net (client.conn, new_message msg_type (next_id s) payload)))
    where
      forgets :
          (o : Option String)
          → lookup
              (next_id s)
              (after_write lib (next_id s) s.next_channel meanwhile (filed s) o).1.pending_reqs
            ≡ none
      forgets (some e) = unfold after_write in forget-lookup (next_id s) (filed s).pending_reqs
      forgets none =
          unfold after_write wait in forget-lookup (next_id s) (meanwhile (filed s)).0.pending_reqs
