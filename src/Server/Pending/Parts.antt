-- ===== src/Server/Pending/Parts.antt =====
-- forwardToClientAndWait to a connected client whose write succeeds: its first part files and writes
-- the request, and its second part takes the answer and forgets the request.
use clienthub.Prelude.{◌≡◌, refl, String, none, some, [], ◌∷◌, lookup, delete, nat_eq}
use clienthub.Proto.Message.{Bytes, MsgType, new_message}
use clienthub.Registry.{ClientSession, get_client}
use clienthub.Server.State.{Server, Library, Net}
use clienthub.Server.Pending.{
  Meanwhile, forward_to_client_and_wait, ask, after_write, wait, next_id, filed, forget, received,
}

pub forward_to_client_and_wait-parts :
    (lib : Library) (net : Net) (meanwhile : Meanwhile) (name : String) (client : ClientSession)
    (msg_type : MsgType) (payload : Bytes) (s : Server)
    → get_client name s.registry ≡ some client
    → net (client.conn, new_message msg_type (next_id s) payload) ≡ none
    → let (t, takes) = meanwhile (filed s) in
      forward_to_client_and_wait lib net meanwhile name msg_type payload s ≡ (
        (
          received (lookup s.next_channel t.channels) takes,
          forget (next_id s) (record t { channels = delete s.next_channel t.channels }),
        ),
        (client.conn, new_message msg_type (next_id s) payload) ∷ [],
      )
unfolding forward_to_client_and_wait ask after_write wait
forward_to_client_and_wait-parts lib net meanwhile name client msg_type payload s e n =
    rw (e, n) refl
