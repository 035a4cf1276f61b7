-- ===== src/Server/Steps/Waiting.antt =====
-- A request to a client is made of critical sections, if what happens meanwhile is.
use clienthub.Prelude.{String}
use clienthub.Proto.Message.{Bytes, MsgType}
use clienthub.Proto.Payload.{Codec}
use clienthub.Store.{Clients}
use clienthub.Server.State.{Server, Library, Net}
use clienthub.Server.Pending.{Meanwhile, forward_to_client_and_wait}
use clienthub.Server.Pending.Frame.{IsUntouched, forward_to_client_and_wait-keeps}
use clienthub.Server.Steps.{Step, Reaches, next, joined}

module _ (codec : Codec Clients) where
  -- Whatever happens while a goroutine waits is made of critical sections.
  abbrev pub Runs : Meanwhile → Type 0
  Runs meanwhile = (t : Server) → Reaches codec t (meanwhile t).0

  Reaches-IsUntouched : (s : Server) (m : Meanwhile) → Runs m → IsUntouched (Reaches codec s) m
  Reaches-IsUntouched s m run = record {
    on_filed = λ t r. next r (Step.files t);
    on_meanwhile = λ t r. joined codec r (run t);
    on_received = λ t ch r. next r (Step.wakes t ch);
    on_forget = λ t id r. next r (Step.forgets t id);
  }

  pub forward_to_client_and_wait-Reaches :
      (lib : Library) (net : Net) (m : Meanwhile)
      → Runs m
      → (s t : Server) (name : String) (msg_type : MsgType) (payload : Bytes) → Reaches codec s t
      → Reaches codec s (forward_to_client_and_wait lib net m name msg_type payload t).0.1
  forward_to_client_and_wait-Reaches lib net m run s t name msg_type payload r =
      forward_to_client_and_wait-keeps (Reaches codec s) lib net m (Reaches-IsUntouched s m run)
        name msg_type payload t r
