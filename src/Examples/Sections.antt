-- ===== src/Examples/Sections.antt =====
-- Critical sections of the server.
use clienthub.Prelude.{refl}
use clienthub.Registry.{add_client}
use clienthub.Server.State.{Server, new_server}
use clienthub.Server.Steps.{Step, Reaches.here, Reaches.next}
use clienthub.Server.Steps.Invariant.{IsOrderly, Reaches-IsOrderly, new_server-IsOrderly}
use clienthub.Examples.World.{lib, store, alice}
use clienthub.Examples.Rules.{store-IsSound}

abbrev start : Server
start = new_server store

abbrev with_alice : Server
with_alice = record start { registry = add_client alice start.registry }

Reaches-IsOrderly_example : IsOrderly with_alice
Reaches-IsOrderly_example =
    Reaches-IsOrderly lib.clients
      (next here (Step.adds start alice (record { is_open = refl; unused = λ name a e. cc })))
      (new_server-IsOrderly store store-IsSound)
