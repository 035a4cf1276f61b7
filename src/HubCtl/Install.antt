-- ===== src/HubCtl/Install.antt =====
-- cmd/manager/main.go: what hubctl install looks up before it writes a unit for the system. The
-- system's own commands are not modelled.
use clienthub.Prelude.{
  String, text_append, Bool, not, ◌&&◌, Option, none, some, List, [], ◌∷◌, ◌==◌, string_eq,
  if◌then◌else◌, Result, ok, err,
}
use clienthub.Library.{Arg}
use clienthub.HubCtl.{System, in_config}

-- exec.LookPath, and whether os.Stat finds a path.
pub record Machine : Type 0 where
  pub look_path : String → Option String
  pub present : String → Bool
  pub os : String

-- What is handed to the installer of the system.
pub data Target : Type 0 where
  systemd launchd : String → String → String → Target

-- The first of the directories that has the program, or no path.
abbrev pub first_present : System → Machine → String → List String → String
first_present sys mach bin_name [] = ""
first_present sys mach bin_name (dir ∷ dirs) =
    let path = sys.join (dir ∷ bin_name ∷ []) in
    let rest = first_present sys mach bin_name dirs in if mach.present path then path else rest

abbrev pub common_dirs : System → List String
common_dirs sys = "/usr/local/bin" ∷ text_append sys.home "/.local/bin" ∷ "/opt/clienthub" ∷ []

abbrev pub bin_path_of : System → Machine → String → Option String → String
bin_path_of sys mach bin_name (some path) = path
bin_path_of sys mach bin_name none = first_present sys mach bin_name (common_dirs sys)

unfoldable pub install_daemon : System → Machine → String → String → Result String Target
install_daemon sys mach component cfg_path =
    let bin_name = if component == "server" then "hub-server" else "hub-client" in
    let bin_path = bin_path_of sys mach bin_name (mach.look_path bin_name) in
    let default = in_config sys (if component == "server" then "server.yaml" else "client.yaml") in
    let cfg = sys.abs (if cfg_path == "" then default else cfg_path) in
    let bin = sys.abs bin_path in
    if bin_path == ""
    then err (
        sys.sprintf "%s not found in PATH or common locations; install it first"
          (Arg.text bin_name ∷ []))
    else if not (mach.present cfg)
    then err (
        sys.sprintf "config file not found: %s\nCreate it first or specify with -c"
          (Arg.text cfg ∷ []))
    else if mach.os == "linux"
    then ok (Target.systemd component bin cfg)
    else if mach.os == "darwin"
    then ok (Target.launchd component bin cfg)
    else err (
        sys.sprintf
          "daemon install not supported on %s; run %s manually or create a service yourself"
          (Arg.text mach.os ∷ Arg.text bin_name ∷ []))

-- hubctl install
unfoldable pub install : System → Machine → String → String → Result String Target
install sys mach component cfg_path =
    let installed = install_daemon sys mach component cfg_path in
    if not (component == "server") && not (component == "client")
    then err
        (sys.sprintf "component must be 'server' or 'client', got '%s'" (Arg.text component ∷ []))
    else installed
