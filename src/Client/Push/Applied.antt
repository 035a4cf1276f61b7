-- ===== src/Client/Push/Applied.antt =====
-- What a pushed configuration does to the forwards of a client.
use clienthub.Prelude.{
  ◌≡◌, String, Option, none, some, List, [], ◌∷◌, map, Map, lookup, insert, ==_iff, string_eq,
  if◌then◌else◌, arith, Distinct, insert-Distinct,
}
use clienthub.Proto.Message.{Message}
use clienthub.Proto.Payload.{ForwardInfo, PushConfigPayload, decode_json}
use clienthub.Config.{or_tcp}
use clienthub.Client.State.{Client, ActiveForward, Library, Net, register_services}
use clienthub.Client.Forwards.{Listen, new_forward, add_forward, remove_forward}
use clienthub.Client.Forwards.Changes.{lookup-add_forward, lookup-remove_forward}
use clienthub.Client.Push.{wanted, has, exposed, remove_stale, add_new, handle_push_config}

lookup-remove_stale :
    (lib : Library) (desired : Map String ForwardInfo) (existing : Map String ActiveForward)
    (c : Client) (addr : String)
    → lookup addr (remove_stale lib desired existing c).forwards ≡ (
        if has addr desired
        then lookup addr c.forwards
        else if has addr existing
        then none
        else lookup addr c.forwards)
unfolding remove_stale
lookup-remove_stale lib desired [] c addr = ground arith
lookup-remove_stale lib desired ((a, fwd) ∷ existing) c addr = ground (
  arith,
  ==_iff a addr,
  lookup-remove_stale lib desired existing c addr,
  lookup-remove_stale lib desired existing (remove_forward lib a c).0 addr,
  lookup-remove_forward lib a addr c,
)

-- What the loop over the desired forwards leaves where every address can be listened on.
abbrev pub filled : Option ForwardInfo → String → Option ActiveForward → Option ActiveForward
filled d addr (some fwd) = some fwd
filled none addr none = none
filled (some f) addr none =
    some (new_forward addr f.remote_client f.remote_service (or_tcp f.protocol))

lookup-add_new :
    (lib : Library) (listen : Listen) (existing : Map String ActiveForward)
    (desired : Map String ForwardInfo) (c : Client) (addr : String)
    → ((a : String) → listen a ≡ none)
    → Distinct desired
    → lookup addr (add_new lib listen existing desired c).forwards ≡ (
        if has addr existing
        then lookup addr c.forwards
        else filled (lookup addr desired) addr (lookup addr c.forwards))
unfolding add_new
lookup-add_new lib listen existing [] c addr l d = ground arith
lookup-add_new lib listen existing ((a, f) ∷ desired) c addr l d =
    let c' = (add_forward lib listen a f.remote_client f.remote_service (or_tcp f.protocol) c).0 in
    ground (
      arith,
      ==_iff a addr,
      l a,
      lookup-add_new lib listen existing desired c addr l d.1,
      lookup-add_new lib listen existing desired c' addr l d.1,
      lookup-add_forward lib listen a f.remote_client f.remote_service (or_tcp f.protocol) addr c,
    )

wanted-Distinct :
    (fs : List ForwardInfo) (m : Map String ForwardInfo) → Distinct m → Distinct (wanted fs m)
wanted-Distinct [] m d = d
wanted-Distinct (f ∷ fs) m d =
    wanted-Distinct fs (insert f.listen_addr f m) (insert-Distinct f.listen_addr f m d)

-- The forward that a pushed list leaves on an address: none where the list has none; the one that
-- was there, as it was; or a new one.
abbrev pub pushed_forward :
    Option ForwardInfo → String → Option ActiveForward → Option ActiveForward
pushed_forward none addr old = none
pushed_forward (some f) addr old = filled (some f) addr old

-- Where every address can be listened on, the forwards after a push that can be decoded stand on
-- the addresses of the pushed list and no others. A forward that was on such an address before
-- stays what it was, also where the list asks for another target there.
pub lookup-handle_push_config :
    (lib : Library) (net : Net) (listen : Listen) (msg : Message) (pushed : PushConfigPayload)
    (c : Client) (addr : String)
    → decode_json lib.push_config msg.payload ≡ some pushed
    → ((a : String) → listen a ≡ none)
    → let c' = (handle_push_config lib net listen msg c).0 in
      lookup addr c'.forwards
      ≡ pushed_forward (lookup addr (wanted pushed.forward [])) addr (lookup addr c.forwards)
unfolding handle_push_config
lookup-handle_push_config lib net listen msg pushed c addr e l =
    let c' = record c { cfg = record c.cfg { expose = map exposed pushed.expose } } in
    let desired = wanted pushed.forward [] in
    ground (
      arith,
      lookup-remove_stale lib desired c.forwards c' addr,
      lookup-add_new lib listen c.forwards desired (remove_stale lib desired c.forwards c') addr l
          (wanted-Distinct pushed.forward [] tt),
    )

-- A pushed configuration that exposes nothing announces nothing: the server keeps the services that
-- the client announced before.
pub handle_push_config_silent :
    (lib : Library) (net : Net) (listen : Listen) (msg : Message) (pushed : PushConfigPayload)
    (c : Client)
    → decode_json lib.push_config msg.payload ≡ some pushed
    → pushed.expose ≡ []
    → (handle_push_config lib net listen msg c).1 ≡ []
unfolding handle_push_config register_services
handle_push_config_silent lib net listen msg pushed c e x = ground arith
