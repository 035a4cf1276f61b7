-- ===== src/HubCtl/Files.antt =====
-- cmd/manager/main.go: hubctl config, and its commands show, set and init.
pub mod Kept
use clienthub.Prelude.{
  ℕ, String, Bool, true, false, not, ◌||◌, Option, none, some, List, [], ◌∷◌, ◌++◌, Map, lookup,
  insert, ◌==◌, string_eq, if◌then◌else◌, Result, ok, err, is_empty, Return, returns, panics,
}
use clienthub.Proto.Message.{Bytes}
use clienthub.Library.{Arg}
use clienthub.HubCtl.{
  System, Disk, Ran, Raw, Value, Value.plain, Value.other, Flags, fails, or_else, in_config,
  resolve_client_config, written,
}

-- if value != "" { raw[key] = value }
abbrev pub set_given : String → String → Raw → Raw
set_given key value raw = if value == "" then raw else insert key (plain value) raw

abbrev pub left_of : System → Option Bytes → Option Raw
left_of sys none = some []
left_of sys (some b) = sys.raw_left b

-- out, _ := yaml.Marshal(raw)
abbrev pub or_none : Option Bytes → Bytes
or_none none = []
or_none (some out) = out

shown : System → Disk → String → Option Bytes → Ran
shown sys disk path none = fails disk [] (
    sys.sprintf "no hubctl config found at %s\nUse: hubctl config -a <addr> -s <secret>"
      (Arg.text path ∷ []))
shown sys disk path (some b) = record {
  disk = disk;
  printed = sys.sprintf "# %s\n" (Arg.text path ∷ []) ∷ sys.text b ∷ [];
  error = none;
}

-- A flag that is set is written to the map, which panics if the map is nil.
stored : System → Flags → Disk → String → Option Raw → Return Ran
stored sys f disk path none = panics
stored sys f disk path (some raw) =
    let new = set_given "secret" f.secret (set_given "admin_addr" f.admin_addr raw) in
    returns (
      written sys disk path (or_none (sys.marshal new))
        (sys.sprintf "Config saved to %s\n" (Arg.text path ∷ []) ∷ []) (sys.write_error path))

-- hubctl config without a command
unfoldable pub config : System → Flags → Disk → Return Ran
unfolding shown stored
config sys f disk =
    let path = or_else f.config_file (in_config sys "hubctl.yaml") in
    if not (f.admin_addr == "") || not (f.secret == "")
    then stored sys f disk path (left_of sys (lookup path disk))
    else returns (shown sys disk path (lookup path disk))

read_failed : System → Disk → String → Ran
read_failed sys disk path =
    fails disk [] (sys.sprintf "read config: %w" (Arg.text (sys.read_error path) ∷ []))

client_shown : System → Disk → String → Option Bytes → Ran
unfolding read_failed
client_shown sys disk path none = read_failed sys disk path
client_shown sys disk path (some b) = record {
  disk = disk;
  printed = sys.sprintf "# %s\n" (Arg.text path ∷ []) ∷ sys.text b ∷ [];
  error = none;
}

unfoldable pub config_show : System → String → Disk → Ran
unfolding client_shown
config_show sys cfg_path disk =
    let path = resolve_client_config sys cfg_path in client_shown sys disk path (lookup path disk)

abbrev pub is_allowed : String → Bool
is_allowed key =
    key == "server_addr" || key == "client_name" || key == "secret" || key == "log_level"

-- old, _ := raw[key].(string)
abbrev pub text_of : Option Value → String
text_of (some (plain old)) = old
text_of (some (other b)) = ""
text_of none = ""

-- What is printed of a change.
change : System → String → String → String → String
change sys key old value =
    if old == ""
    then sys.sprintf "%s: %s\n" (Arg.text key ∷ Arg.text value ∷ [])
    else sys.sprintf "%s: %s -> %s\n" (Arg.text key ∷ Arg.text old ∷ Arg.text value ∷ [])

saved : System → Disk → String → String → String → Raw → Raw → Option Bytes → Ran
unfolding change
saved sys disk path key value raw new none =
    fails disk [] (sys.sprintf "marshal config: %w" (Arg.text (sys.marshal_error new) ∷ []))
saved sys disk path key value raw new (some out) =
    written sys disk path out
      (change sys key (text_of (lookup key raw)) value
        ∷ sys.sprintf "Config saved to %s\n" (Arg.text path ∷ [])
        ∷ [])
      (sys.write_error path)

parsed : System → Disk → String → String → String → Bytes → Option (Option Raw) → Return Ran
unfolding saved
parsed sys disk path key value b none =
    returns (fails disk [] (sys.sprintf "parse config: %w" (Arg.text (sys.yaml_error b) ∷ [])))
parsed sys disk path key value b (some none) = panics
parsed sys disk path key value b (some (some raw)) =
    let new = insert key (plain value) raw in
    returns (saved sys disk path key value raw new (sys.marshal new))

set_in : System → Disk → String → String → String → Option Bytes → Return Ran
unfolding parsed read_failed
set_in sys disk path key value none = returns (read_failed sys disk path)
set_in sys disk path key value (some b) = parsed sys disk path key value b (sys.unmarshal b)

unfoldable pub config_set : System → String → String → String → Disk → Return Ran
unfolding set_in
config_set sys cfg_path key value disk =
    let path = resolve_client_config sys cfg_path in
    let ran = set_in sys disk path key value (lookup path disk) in
    if not (is_allowed key)
    then returns (
        fails disk [] (
          sys.sprintf "unknown key '%s'; supported: server_addr, client_name, secret, log_level"
            (Arg.text key ∷ [])))
    else ran

-- The file that init writes.
abbrev pub fresh : String → String → String → Raw → Raw
fresh server_addr client_name secret_val expose =
    ("server_addr", plain server_addr)
    ∷ ("client_name", plain client_name)
    ∷ ("secret", plain secret_val)
    ∷ ("log_level", plain "info")
    ∷ expose

-- "expose": an empty list
abbrev pub no_expose : Bytes → Raw
no_expose empty = ("expose", other empty) ∷ []

exists : Option Bytes → Bool
exists none = false
exists (some b) = true

-- `random` is what rand.Read fills in, and `empty` stands for an empty list.
unfoldable pub config_init : System → Bytes → Bytes → String → String → String → String → Disk → Ran
unfolding exists
config_init sys random empty cfg_path server_addr client_name secret_val disk =
    let path = resolve_client_config sys cfg_path in
    let name = or_else client_name sys.hostname in
    let secret = or_else secret_val (sys.hex random) in
    let told =
      if secret_val == ""
      then sys.sprintf "Generated secret: %s\n" (Arg.text secret ∷ []) ∷ []
      else [] in
    let out = or_none (sys.marshal (fresh server_addr name secret (no_expose empty))) in
    let ran =
      written sys disk path out (sys.sprintf "Config created: %s\n" (Arg.text path ∷ []) ∷ [])
        (sys.write_error path) in
    if exists (lookup path disk)
    then fails disk [] (
        sys.sprintf "config already exists: %s (use 'hubctl config set' to modify)"
          (Arg.text path ∷ []))
    else if server_addr == ""
    then fails disk [] "--server is required"
    else record ran { printed = told ++ ran.printed }
