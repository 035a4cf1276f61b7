-- ===== src/Bridge/Managers.antt =====
-- pkg/cbridge/bridge.go: the administrators behind handles, and the messages of the logger.
use clienthub.Prelude.{
  ℕ, String, text_append, ◌||◌, Option, none, some, List, [], ◌++◌, ◌==◌, string_eq, int_eq, leb,
  if◌then◌else◌, is_empty, ok, err, ℤ, pos, negsuc,
}
use clienthub.Proto.Message.{
  Bytes, MsgType, msg_list_clients, msg_list_tunnels, msg_list_forwards, msg_add_forward,
  msg_remove_forward, msg_kick_client, msg_list_expose, msg_add_expose, msg_remove_expose,
}
use clienthub.Proto.Payload.{ResponsePayload}
use clienthub.Crypto.{Primitives}
use clienthub.Manager.{Manager, Library, Line, Event, Answered, new, send_command}
use clienthub.Bridge.Handles.{put, get, remove}
use clienthub.Bridge.Callbacks.{Callbacks, Fired, fire_log}
use clienthub.Bridge.Hub.{Hub, Json, Object, Object.client_at, Object.manager_of}

enrolled : Manager → Hub → Hub × ℤ
enrolled m h = let (r, id) = put (manager_of m) h.registry in (record h { registry = r }, id)

-- The handle, or -1.
unfoldable pub manager_create : Primitives → String → String → Hub → (Hub × ℤ) × List Fired
unfolding enrolled
manager_create p addr secret h =
    if addr == "" || secret == ""
    then ((h, negsuc 0), fire_log 2 "ManagerCreate: addr and secret are required" h.callbacks)
    else (enrolled (new p addr secret) h, [])

as_manager : Option Object → Option Manager
as_manager none = none
as_manager (some (client_at a)) = none
as_manager (some (manager_of m)) = some m

unfoldable pub get_manager : ℤ → Hub → Option Manager
unfolding as_manager
get_manager handle h = as_manager (get handle h.registry)

-- errResult(err.Error()) or respResult(resp)
abbrev pub result_of : Json → Answered → String × List Event
result_of json (err e, es) = (json.failure e, es)
result_of json (ok resp, es) = (json.response resp, es)

module _ (p : Primitives) (lib : Library) (json : Json) where
  asks : Line → MsgType → Bytes → Option Manager → String × List Event
  asks line msg_type payload none = (json.failure "invalid handle", [])
  asks line msg_type payload (some m) = result_of json (send_command p lib line msg_type payload m)

  unfoldable pub manager_list_clients : Line → ℤ → Hub → String × List Event
  unfolding asks
  manager_list_clients line handle h = asks line msg_list_clients [] (get_manager handle h)

  unfoldable pub manager_list_tunnels : Line → ℤ → Hub → String × List Event
  unfolding asks
  manager_list_tunnels line handle h = asks line msg_list_tunnels [] (get_manager handle h)

  unfoldable pub manager_list_forwards : Line → ℤ → Hub → String × List Event
  unfolding asks
  manager_list_forwards line handle h = asks line msg_list_forwards [] (get_manager handle h)

  unfoldable pub manager_add_forward : Line → ℤ → String → Hub → String × List Event
  unfolding asks
  manager_add_forward line handle params_json h =
      asks line msg_add_forward (json.bytes params_json) (get_manager handle h)

  unfoldable pub manager_remove_forward : Line → ℤ → String → Hub → String × List Event
  unfolding asks
  manager_remove_forward line handle params_json h =
      asks line msg_remove_forward (json.bytes params_json) (get_manager handle h)

  unfoldable pub manager_kick_client : Line → ℤ → String → Hub → String × List Event
  unfolding asks
  manager_kick_client line handle name h =
      asks line msg_kick_client (json.name name) (get_manager handle h)

  unfoldable pub manager_list_expose : Line → ℤ → String → Hub → String × List Event
  unfolding asks
  manager_list_expose line handle client_name h =
      asks line msg_list_expose (if client_name == "" then [] else json.name client_name)
        (get_manager handle h)

  unfoldable pub manager_add_expose : Line → ℤ → String → Hub → String × List Event
  unfolding asks
  manager_add_expose line handle params_json h =
      asks line msg_add_expose (json.bytes params_json) (get_manager handle h)

  unfoldable pub manager_remove_expose : Line → ℤ → String → Hub → String × List Event
  unfolding asks
  manager_remove_expose line handle params_json h =
      asks line msg_remove_expose (json.bytes params_json) (get_manager handle h)

  entries : Bytes → ℕ
  entries b = if is_empty b then 0 else json.entries_left b

  counted : ResponsePayload → List Event → Answered → String × List Event
  unfolding entries
  counted clients es (err e, es') = (json.failure e, es ++ es')
  counted clients es (ok tunnels, es') =
      (json.counts (entries clients.raw) (entries tunnels.raw), es ++ es')

  clients_counted : Line → Manager → Answered → String × List Event
  unfolding counted
  clients_counted line m (err e, es) = (json.failure e, es)
  clients_counted line m (ok clients, es) =
      counted clients es (send_command p lib line msg_list_tunnels [] m)

  status_of : Line → Line → Option Manager → String × List Event
  unfolding clients_counted
  status_of first second none = (json.failure "invalid handle", [])
  status_of first second (some m) =
      clients_counted second m (send_command p lib first msg_list_clients [] m)

  -- The two commands go over a connection each.
  unfoldable pub manager_status : Line → Line → ℤ → Hub → String × List Event
  unfolding status_of
  manager_status first second handle h = status_of first second (get_manager handle h)

-- Whatever the handle stands for.
unfoldable pub manager_destroy : ℤ → Hub → Hub
manager_destroy handle h = record h { registry = remove handle h.registry }

-- The level of an entry of zap: -1 for debug, 0 for info, 1 for warn, 2 for error, and above.
abbrev pub level_of : ℤ → ℕ
level_of (negsuc n) = 0
level_of (pos n) = if leb 2 n then 3 else if leb 1 n then 2 else 1

-- The fields of an entry as JSON: none where there are none, or where Marshal fails.
abbrev pub with_fields : String → Option String → String
with_fields msg none = msg
with_fields msg (some extra) = text_append (text_append msg " ") extra

-- callbackCore.Write
unfoldable pub write : ℤ → String → Option String → Callbacks → List Fired
write level msg fields cb = fire_log (level_of level) (with_fields msg fields) cb
