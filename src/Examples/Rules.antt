-- ===== src/Examples/Rules.antt =====
-- The stored rules, and the configuration of a client.
use clienthub.Prelude.{
  ◌≡◌, refl, String, Option, none, some, List, [], ◌∷◌, string_eq, if◌then◌else◌, arith, lookup,
}
use clienthub.Proto.Message.{Bytes}
use clienthub.Proto.Payload.{ExposeRule, ExposeListEntry}
use clienthub.Config.{ClientConfig}
use clienthub.Store.{Store, returns, written, failed, WriteOutcome, list_expose}
use clienthub.Store.Order.{IsSound, Call, exposes, unexposes, forwards}
use clienthub.Store.Listing.{rules_under, passes, expose_of, rules_under-list_expose}
use clienthub.Examples.World.{store, forward_info, config}

abbrev ssh_rule : ExposeRule
ssh_rule = record { name = "ssh"; local_addr = "127.0.0.1:22"; protocol = "tcp" }

abbrev disk_full : WriteOutcome
disk_full = failed none

pub store-IsSound : IsSound store
store-IsSound = record { distinct = (refl, tt); rules = λ client p e. ground (arith, e) }

abbrev calls : List Call
calls =
    exposes written "bob" ssh_rule
    ∷ forwards disk_full "alice" forward_info
    ∷ unexposes written "bob" "web"
    ∷ []

rules_under-list_expose_example :
    (rs : List ExposeListEntry) × (list_expose "" store ≡ returns rs)
    × ((c : String)
        → rules_under c rs ≡ (if passes "" c then expose_of (lookup c store.clients) else []))
rules_under-list_expose_example = rules_under-list_expose "" store store-IsSound

-- A file that says what the defaults do not say.
abbrev read : Bytes → ClientConfig → Option ClientConfig
read b defaults = some config
