-- ===== src/Examples/Applications.antt =====
-- A desktop application, and hubctl.
use clienthub.Prelude.{
  ℕ, ◌≡◌, refl, Option, none, some, false, List, [], ◌∷◌, lookup, string_eq, pos, ok, returns,
}
use clienthub.Proto.Message.{Bytes}
use clienthub.Client.State.{new_client}
use clienthub.Bridge.Handles.{put, get}
use clienthub.Bridge.Callbacks.{Fired, new_callbacks}
use clienthub.Bridge.Hub.{
  Hub, new_hub, Json, ClientHandle, Object.client_at, Run, client_create, client_start, client_stop,
  with_defaults, run_returned,
}
use clienthub.Bridge.Hub.Life.{IsAmong, Has, client_stop-client_start}
use clienthub.Bridge.Hub.Restart.{restarted_run_unreachable}
use clienthub.Bridge.Hub.Invariant.{IsSteady, among}
use clienthub.Bridge.Hub.Steps.{
  Step, Reaches.here, Reaches.next, Reaches-IsSteady, new_hub-IsSteady,
}
use clienthub.HubCtl.{System, Disk, Raw, Ran, Flags, Value.plain, pre_run, load_defaults, execute}
use clienthub.Config.{load_manager_config}
use clienthub.HubCtl.Files.{config_set}
use clienthub.HubCtl.Files.Kept.{config_set_sets}
use clienthub.Examples.World.{config}

abbrev json : Json
json = record {
  client_config = λ text. ok config;
  status = λ status name addr. name;
  failure = λ e. e;
  response = λ r. r.message;
  name = λ name. [];
  counts = λ clients tunnels. "";
  bytes = λ text. [];
  entries_left = λ b. 0;
}

Reaches-IsSteady_example : IsSteady (client_create json "{}" new_hub).0.0
Reaches-IsSteady_example =
    Reaches-IsSteady (next here (Step.creates json "{}" new_hub)) new_hub-IsSteady

abbrev handle_of : Option ℕ → ClientHandle
handle_of cancel = record { client = new_client config; cancel = cancel; status = 0 }

abbrev run_of : ℕ → Run
run_of context = record { handle = pos 1; address = 0; context = context }

-- One client, under the handle 1.
abbrev hub : Option ℕ → List ℕ → List Run → Hub
hub cancel cancelled runs = record {
  registry = record { objects = (pos 1, client_at 0) ∷ []; next_id = pos 2 };
  callbacks = new_callbacks;
  clients = (0, handle_of cancel) ∷ [];
  next_address = 1;
  next_context = 2;
  cancelled = cancelled;
  runs = runs;
}

hub-Has :
    (cancel : Option ℕ) (cancelled : List ℕ) (runs : List Run)
    → Has (pos 1) 0 (handle_of cancel) (hub cancel cancelled runs)
unfolding get
hub-Has cancel cancelled runs = record { object = refl; client = refl }

client_stop-client_start_example :
    (t : Hub) × (u : Hub) × ((fired : List Fired) × (client_start (pos 1) (hub none [] [])
        ≡ returns (t, fired)))
    × (client_stop (pos 1) t ≡ returns u)
    × (t.runs ≡ run_of 2 ∷ [])
    × (u.cancelled ≡ 2 ∷ [])
    × (u.runs ≡ t.runs)
client_stop-client_start_example =
    client_stop-client_start (pos 1) 0 (handle_of none) (hub none [] []) (hub-Has none [] []) refl

-- A hub with the client that was just created, which is in order.
abbrev created : Hub
created = (client_create json "{}" new_hub).0.0

created-IsSteady : IsSteady created
created-IsSteady = Reaches-IsSteady (next here (Step.creates json "{}" new_hub)) new_hub-IsSteady

abbrev created_client : ClientHandle
created_client = record { client = new_client (with_defaults config); cancel = none; status = 0 }

created-Has : Has (pos 1) 0 created_client created
unfolding get client_create put
created-Has = record { object = refl; client = refl }

restarted_run_unreachable_example :
    (t : Hub) × (u : Hub) × (v : Hub) × ((fired : List Fired) × (client_start (pos 1) created
        ≡ returns (t, fired)))
    × (client_stop (pos 1) t ≡ returns u)
    × ((fired : List Fired) × (client_start (pos 1) u ≡ returns (v, fired)))
    × IsAmong (run_of 0) v.runs
    × IsAmong (run_of 1) v.runs
    × (let w = (run_returned (run_of 0) none v).0 in
        IsAmong (run_of 1) w.runs
        × (among 1 w.cancelled ≡ false)
        × (client_stop (pos 1) w ≡ returns w)
        × ((x : Hub) × ((fired : List Fired) × (client_start (pos 1) w ≡ returns (x, fired)))
            × (x.runs ≡ run_of 2 ∷ w.runs)))
unfolding client_create
restarted_run_unreachable_example =
    restarted_run_unreachable (pos 1) 0 created_client created created-Has none created-IsSteady
      refl

-- A file that says one thing before and another afterwards.
abbrev before : Raw
before = ("secret", plain "s") ∷ ("log_level", plain "info") ∷ []

abbrev after : Raw
after = ("secret", plain "s") ∷ ("log_level", plain "debug") ∷ []

abbrev parse : Bytes → Option (Option Raw)
parse [] = some (some before)
parse (b ∷ bs) = some (some after)

abbrev system : System
system = record {
  home = "/home/a";
  hostname = "a";
  join = λ parts. "client.yaml";
  abs = λ path. path;
  sprintf = λ format args. format;
  unmarshal = parse;
  raw_left = λ b. none;
  marshal = λ raw. some (1 ∷ []);
  unmarshal_manager = λ b cfg. none;
  hex = λ b. "";
  text = λ b. "";
  read_error = λ path. "no file";
  yaml_error = λ b. "bad YAML";
  marshal_error = λ raw. "";
  write_error = λ path. none;
}

abbrev disk : Disk
disk = ("client.yaml", []) ∷ ("other", []) ∷ []

abbrev flags : Flags
flags = record { config_file = "none"; admin_addr = "a"; secret = "s" }

config_set_sets_example :
    (r : Ran) × (execute system disk "set" flags (config_set system "" "log_level" "debug" disk)
      ≡ some (returns r))
    × (r.error ≡ none)
    × (lookup "other" r.disk ≡ some [])
    × ((new : Raw) × (some (some after) ≡ some (some new))
        × (lookup "log_level" new ≡ some (plain "debug")))
unfolding pre_run load_defaults load_manager_config
config_set_sets_example =
    config_set_sets system "" "log_level" "debug" disk flags flags [] (1 ∷ []) before "other"
      "log_level" refl refl
      (record {
        there = refl;
        unmarshals = refl;
        marshals = refl;
        reads_back = refl;
        writable = refl;
      })
