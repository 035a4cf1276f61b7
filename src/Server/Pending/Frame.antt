-- ===== src/Server/Pending/Frame.antt =====
-- What a request to a client leaves alone.
use clienthub.Prelude.{ℕ, String, Option, none, some, delete, nat_eq}
use clienthub.Proto.Message.{Bytes, MsgType}
use clienthub.Registry.{ClientSession, get_client}
use clienthub.Server.State.{Server, Library, Net}
use clienthub.Server.Pending.{
  Meanwhile, forward_to_client_and_wait, ask, after_write, wait, forget, next_id, filed,
}

-- Filing a request, waiting, waking up and forgetting the request keep the property.
pub record IsUntouched {ℓ} (P : Server → Type ℓ) (meanwhile : Meanwhile) : Type ℓ where
  pub on_filed : (s : Server) → P s → P (filed s)
  pub on_meanwhile : (s : Server) → P s → P (meanwhile s).0
  pub on_received : (s : Server) (ch : ℕ) → P s → P (record s { channels = delete ch s.channels })
  pub on_forget : (s : Server) (id : ℕ) → P s → P (forget id s)

module _ {ℓ} (P : Server → Type ℓ) (lib : Library) (net : Net) (meanwhile : Meanwhile)
    (f : IsUntouched P meanwhile) where
  after_write-keeps :
      (req_id ch : ℕ) (s : Server) (o : Option String)
      → P s
      → P (after_write lib req_id ch meanwhile s o).1
  unfolding after_write wait
  after_write-keeps req_id ch s (some e) h = f.on_forget s req_id h
  after_write-keeps req_id ch s none h =
      f.on_forget _ req_id (f.on_received (meanwhile s).0 ch (f.on_meanwhile s h))

  ask-keeps :
      (name : String) (msg_type : MsgType) (payload : Bytes) (s : Server) (o : Option ClientSession)
      → P s
      → P (ask lib net meanwhile name msg_type payload s o).0.1
  unfolding ask
  ask-keeps name msg_type payload s none h = h
  ask-keeps name msg_type payload s (some client) h =
      after_write-keeps (next_id s) s.next_channel (filed s) _ (f.on_filed s h)

  -- Such a property holds after the request, if what happens meanwhile keeps it.
  pub forward_to_client_and_wait-keeps :
      (name : String) (msg_type : MsgType) (payload : Bytes) (s : Server)
      → P s
      → P (forward_to_client_and_wait lib net meanwhile name msg_type payload s).0.1
  unfolding forward_to_client_and_wait
  forward_to_client_and_wait-keeps name msg_type payload s h =
      ask-keeps name msg_type payload s (get_client name s.registry) h
