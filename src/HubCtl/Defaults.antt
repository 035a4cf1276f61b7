-- ===== src/HubCtl/Defaults.antt =====
-- What the flags, the file and the defaults come to, and what config set leaves.
use clienthub.Prelude.{◌≡◌, refl, String, false, none, lookup, string_eq, err}
use clienthub.Config.{Error, load_manager_config}
use clienthub.HubCtl.{
  System, Disk, Flags, load_defaults, pre_run, filled, in_config, or_else, is_local,
}

-- Without a configuration that can be loaded and without a secret among the flags, every command but
-- install, gen-token and the bare config exits before it runs: so do config init, config set and
-- config show, which need no server.
pub pre_run_exits :
    (sys : System) (disk : Disk) (name : String) (f : Flags) (e : Error)
    → is_local name ≡ false
    → f.secret ≡ ""
    → load_manager_config sys.unmarshal_manager
        (lookup (or_else f.config_file (in_config sys "hubctl.yaml")) disk)
      ≡ err e
    → pre_run sys disk name f ≡ none
unfolding pre_run load_defaults filled
pre_run_exits sys disk name f e l s h = rw l (rw h (rw s refl))
