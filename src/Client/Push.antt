-- ===== src/Client/Push.antt =====
-- pkg/client/client.go: handlePushConfig. The map `desired` and the set `existing` are made first, and
-- the two loops go over them; a loop over a map may take any order.
pub mod Applied
use clienthub.Prelude.{
  ℕ, ◌≡◌, String, Bool, true, false, Option, none, some, List, [], ◌∷◌, ◌++◌, map, Map, lookup,
  insert, ◌==◌, string_eq, if◌then◌else◌,
}
use clienthub.Proto.Message.{Bytes, Message}
use clienthub.Proto.Payload.{ExposeRule, ForwardInfo, PushConfigPayload, decode_json}
use clienthub.Config.{ExposeService, or_tcp}
use clienthub.Client.State.{Client, ActiveForward, Library, Net, register_services}
use clienthub.Client.Forwards.{Listen, add_forward, remove_forward}

-- for _, f := range cfg.Forward { desired[f.ListenAddr] = f }
abbrev pub wanted : List ForwardInfo → Map String ForwardInfo → Map String ForwardInfo
wanted [] desired = desired
wanted (f ∷ fs) desired = wanted fs (insert f.listen_addr f desired)

abbrev pub has {ℓ} : {V : Type ℓ} → String → Map String V → Bool
has addr m = elim (lookup addr m) [ none ↦ false | some v ↦ true ]

-- Remove forwards no longer in desired set.
remove_stale : Library → Map String ForwardInfo → Map String ActiveForward → Client → Client
remove_stale lib desired [] c = c
remove_stale lib desired ((addr, fwd) ∷ existing) c =
    remove_stale lib desired existing
      (if has addr desired then c else (remove_forward lib addr c).0)

-- Add new forwards.
add_new : Library → Listen → Map String ActiveForward → Map String ForwardInfo → Client → Client
add_new lib listen existing [] c = c
add_new lib listen existing ((addr, f) ∷ desired) c = add_new lib listen existing desired (
    if has addr existing
    then c
    else (add_forward lib listen addr f.remote_client f.remote_service (or_tcp f.protocol) c).0)

abbrev pub exposed : ExposeRule → ExposeService
exposed e = record { name = e.name; local_addr = e.local_addr; protocol = e.protocol }

apply_forwards : Library → Listen → List ForwardInfo → Client → Client
unfolding remove_stale add_new
apply_forwards lib listen forward c =
    let desired = wanted forward [] in
    let existing = c.forwards in
    add_new lib listen existing desired (remove_stale lib desired existing c)

apply_config : Library → Net → Listen → Client → Option PushConfigPayload → Client × List Message
unfolding apply_forwards
apply_config lib net listen c none = (c, [])
apply_config lib net listen c (some pushed) =
    let c' = record c { cfg = record c.cfg { expose = map exposed pushed.expose } } in
    (
      apply_forwards lib listen pushed.forward c',
      if c'.connected then register_services lib net c' else [],
    )

unfoldable pub handle_push_config :
    Library → Net → Listen → Message → Client → Client × List Message
unfolding apply_config
handle_push_config lib net listen msg c =
    apply_config lib net listen c (decode_json lib.push_config msg.payload)
