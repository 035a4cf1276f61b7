-- ===== src/HubCtl.antt =====
-- cmd/manager/main.go: the program hubctl: its flags and defaults, and the configuration files that it
-- writes. The disk is the contents of its files. What packages outside this repository give is a
-- field of `System`.
pub mod Files
pub mod Defaults
pub mod Install
use clienthub.Prelude.{
  ℕ, String, Bool, true, false, not, ◌&&◌, ◌||◌, Option, none, some, List, [], ◌∷◌, ◌++◌, Map,
  lookup, insert, ◌==◌, string_eq, if◌then◌else◌, Result, ok, err,
}
use clienthub.Proto.Message.{Bytes}
use clienthub.Config.{Error, ManagerConfig, load_manager_config}
use clienthub.Library.{Arg}

-- A value in a YAML file: a text, or anything else as it stands there.
pub data Value : Type 0 where
  plain : String → Value
  other : Bytes → Value

abbrev pub Raw : Type 0
Raw = Map String Value

-- os.UserHomeDir and os.Hostname, filepath.Join and filepath.Abs, fmt.Sprintf, yaml.v3 on a map and
-- on a ManagerConfig, hex.EncodeToString, and the texts of the errors.
pub record System : Type 0 where
  pub home : String
  pub hostname : String
  pub join : List String → String
  pub abs : String → String
  pub sprintf : String → List Arg → String
  -- what Unmarshal leaves in an empty map; a document `null` leaves a nil map, here `none`
  pub unmarshal : Bytes → Option (Option Raw)
  -- the same, also where it fails
  pub raw_left : Bytes → Option Raw
  pub marshal : Raw → Option Bytes
  pub unmarshal_manager : Bytes → ManagerConfig → Option ManagerConfig
  pub hex : Bytes → String
  pub text : Bytes → String
  pub read_error : String → String
  pub yaml_error : Bytes → String
  pub marshal_error : Raw → String
  -- os.WriteFile: no error, or the text of one, where nothing is written
  pub write_error : String → Option String

abbrev pub Disk : Type 0
Disk = Map String Bytes

-- What a command leaves on the disk and prints, and its error.
pub record Ran : Type 0 where
  pub disk : Disk
  pub printed : List String
  pub error : Option String

abbrev pub fails : Disk → List String → String → Ran
fails disk printed e = record { disk = disk; printed = printed; error = some e }

-- The variables of the package: the persistent flags.
pub record Flags : Type 0 where
  pub config_file : String
  pub admin_addr : String
  pub secret : String

abbrev pub or_else : String → String → String
or_else value default = if value == "" then default else value

abbrev pub in_config : System → String → String
in_config sys name = sys.join (sys.home ∷ ".config" ∷ "clienthub" ∷ name ∷ [])

-- A configuration that cannot be loaded is as none.
filled : Result Error ManagerConfig → Flags → Flags
filled (err e) f = f
filled (ok cfg) f = record f {
  admin_addr = or_else f.admin_addr cfg.admin_addr;
  secret = or_else f.secret cfg.secret;
}

-- The flags, or the program exits with an error.
unfoldable pub load_defaults : System → Disk → Flags → Option Flags
unfolding filled
load_defaults sys disk f =
    let path = or_else f.config_file (in_config sys "hubctl.yaml") in
    let g =
      filled (load_manager_config sys.unmarshal_manager (lookup path disk))
        (record f { config_file = path }) in
    let h = record g { admin_addr = or_else g.admin_addr "127.0.0.1:7902" } in
    if h.secret == "" then none else some h

-- localCmds[cmd.Name()]
abbrev pub is_local : String → Bool
is_local name = name == "install" || name == "gen-token" || name == "config"

-- PersistentPreRun, before the command of this name.
unfoldable pub pre_run : System → Disk → String → Flags → Option Flags
pre_run sys disk name f =
    let loaded = load_defaults sys disk f in if is_local name then some f else loaded

executed : {A : Type 0} → Option Flags → A → Option A
executed none ran = none
executed (some f) ran = some ran

-- rootCmd.Execute: PersistentPreRun, which may exit the program, and then the command of this name.
unfoldable pub execute : {A : Type 0} → System → Disk → String → Flags → A → Option A
unfolding executed
execute sys disk name f ran = executed (pre_run sys disk name f) ran

abbrev pub resolve_client_config : System → String → String
resolve_client_config sys flag_path = or_else flag_path (in_config sys "client.yaml")

-- os.WriteFile, with the text that is then printed.
abbrev pub written : System → Disk → String → Bytes → List String → Option String → Ran
written sys disk path out printed (some e) =
    fails disk [] (sys.sprintf "write config: %w" (Arg.text e ∷ []))
written sys disk path out printed none = record {
  disk = insert path out disk;
  printed = printed;
  error = none;
}

-- gen-token, with the random bytes or the text of an error
unfoldable pub gen_token : System → Disk → Result String Bytes → Ran
gen_token sys disk (err e) = fails disk [] (sys.sprintf "generate token: %w" (Arg.text e ∷ []))
gen_token sys disk (ok buf) = record { disk = disk; printed = sys.hex buf ∷ []; error = none }
