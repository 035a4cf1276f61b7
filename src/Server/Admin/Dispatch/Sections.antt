-- ===== src/Server/Admin/Dispatch/Sections.antt =====
-- The critical sections that handleAdminMessage is made of.
use clienthub.Prelude.{ℕ, All, ◌≡◌, refl, String, Bool, true, false, ◌==◌, nat_eq, if◌then◌else◌}
use clienthub.Proto.Message.{
  Message, msg_list_clients, msg_list_tunnels, msg_kick_client, msg_add_forward, msg_remove_forward,
  msg_list_forwards, msg_add_expose, msg_remove_expose, msg_list_expose,
}
use clienthub.Store.{Return, returns}
use clienthub.Store.Order.{IsSound}
use clienthub.Server.State.{Server, Library}
use clienthub.Server.Pending.{Meanwhile}
use clienthub.Server.Admin.{Handled}
use clienthub.Server.Admin.Dispatch.{Surroundings, handle_admin_message}
use clienthub.Server.Admin.Sections.{
  Ends, handle_kick-Reaches, handle_admin_add_expose-Reaches, handle_admin_remove_expose-Reaches,
  handle_admin_add_forward-Reaches, handle_admin_remove_forward-Reaches,
}
use clienthub.Server.Admin.Listing.Sections.{
  handle_list_tunnels-Reaches, handle_admin_list_clients-Reaches, handle_admin_list_expose-Reaches,
  handle_admin_list_forwards-Reaches,
}
use clienthub.Server.Admin.Probes.Sections.{IsMade}
use clienthub.Server.Steps.{Reaches, here}
use clienthub.Server.Steps.Waiting.{Runs}

-- What the rest of the server does while a command waits is made of critical sections; for the probes
-- of a speed test, this says it of the others alone.
pub record AreRuns (lib : Library) (w : Surroundings) (wait : Meanwhile) : Type 0 where
  pub waits : Runs lib.clients wait
  pub meanwhile : (name : String) → Runs lib.clients (w.meanwhile name)
  pub probing : All (IsMade lib w.net) w.probing

module _ (lib : Library) (w : Surroundings) (wait : Meanwhile) (conn : ℕ) (msg : Message)
    (s : Server) where
  -- Where the rules of the store are in order, every command of an administrator returns: it does
  -- not panic. What it did, and what was done while it waited, was made of critical sections.
  pub handle_admin_message_returns :
      AreRuns lib w wait
      → IsSound s.store
      → (h : Handled) × (handle_admin_message lib w wait conn msg s ≡ returns h)
        × Reaches lib.clients s h.server
  unfolding handle_admin_message
  handle_admin_message_returns run sound =
      case (msg.type == msg_list_clients) _ _
        (_, refl, handle_admin_list_clients-Reaches lib w.net conn msg s w.probing run.probing)
        (case (msg.type == msg_list_tunnels) _ _
          (_, refl, handle_list_tunnels-Reaches lib w.net conn msg s)
          (case (msg.type == msg_kick_client) _ _
            (_, refl, handle_kick-Reaches lib w.net conn msg s)
            (case (msg.type == msg_add_forward) _ _
              (_, refl, handle_admin_add_forward-Reaches lib w.net conn msg s wait run.waits w.disk)
              (case (msg.type == msg_remove_forward) _ _
                (handle_admin_remove_forward-Reaches lib w.net conn msg s wait run.waits w.disk
                  sound)
                (case (msg.type == msg_list_forwards) _ _
                  (
                    _,
                    refl,
                    handle_admin_list_forwards-Reaches lib w.net conn msg s w.meanwhile
                        run.meanwhile,
                  )
                  (case (msg.type == msg_add_expose) _ _
                    (_, refl, handle_admin_add_expose-Reaches lib w.net conn msg s w.disk)
                    (case (msg.type == msg_remove_expose) _ _
                      (handle_admin_remove_expose-Reaches lib w.net conn msg s w.disk sound)
                      (case (msg.type == msg_list_expose) _ _
                        (handle_admin_list_expose-Reaches lib w.net conn msg s sound)
                        (_, refl, here)))))))))
    where
      case :
          (b : Bool) (t u : Return Handled)
          → Ends lib w.net conn msg s t
          → Ends lib w.net conn msg s u
          → Ends lib w.net conn msg s (if b then t else u)
      case true t u x y = x
      case false t u x y = y
