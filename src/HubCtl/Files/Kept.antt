-- ===== src/HubCtl/Files/Kept.antt =====
-- What the commands on the configuration leave on the disk.
use clienthub.Prelude.{
  ◌≡◌, refl, String, true, Option, none, some, List, lookup, insert, lookup-insert, ◌==◌, ==_iff,
  string_eq, if◌then◌else◌, arith, Bool-cases, Option-cases, inl, inr, returns,
}
use clienthub.Proto.Message.{Bytes}
use clienthub.HubCtl.{
  System, Disk, Raw, Ran, Flags, Value.plain, resolve_client_config, written, pre_run, execute,
}
use clienthub.HubCtl.Files.{config_set, config_init, set_in, parsed, saved, is_allowed, exists}

module _ (sys : System) (cfg_path key value : String) (disk : Disk) where
  abbrev pub path : String
  path = resolve_client_config sys cfg_path

  -- The file is there and readable, and what is written of it is read back.
  pub record IsReadable (b out : Bytes) (raw : Raw) : Type 0 where
    pub there : lookup path disk ≡ some b
    pub unmarshals : sys.unmarshal b ≡ some (some raw)
    pub marshals : sys.marshal (insert key (plain value) raw) ≡ some out
    pub reads_back : sys.unmarshal out ≡ some (some (insert key (plain value) raw))
    pub writable : sys.write_error path ≡ none

  -- hubctl config set, for a key that it supports, where a secret is found and the program does not
  -- exit before, where the client's file can be parsed as a map and the new map can be marshalled,
  -- written and read back: it returns no error and changes that key of the client's file and no other,
  -- and no other file.
  pub config_set_sets :
      (f g : Flags) (b out : Bytes) (raw : Raw) (other k : String)
      → pre_run sys disk "set" f ≡ some g
      → is_allowed key ≡ true
      → IsReadable b out raw
      → (r : Ran) × (execute sys disk "set" f (config_set sys cfg_path key value disk)
          ≡ some (returns r))
        × (r.error ≡ none)
        × (lookup other r.disk ≡ (if path == other then some out else lookup other disk))
        × ((new : Raw) × (sys.unmarshal out ≡ some (some new))
            × (lookup k new ≡ (if key == k then some (plain value) else lookup k raw)))
  unfolding config_set execute
  config_set_sets f g b out raw other k e a h =
      rw (e, execute)
        (rw (a, h.there, set_in)
          (rw (h.unmarshals, parsed)
            (rw (h.marshals, saved)
              (rw h.writable (
                _,
                refl,
                refl,
                lookup-insert path other out disk,
                (_, h.reads_back, lookup-insert key k (plain value) raw),
              )))))

  -- A failed write leaves every file, and another one every other file.
  lookup-written :
      (out : Bytes) (printed : List String) (e : Option String) (other : String) (b : Bytes)
      → lookup path disk ≡ none
      → lookup other disk ≡ some b
      → lookup other (written sys disk path out printed e).disk ≡ some b
  lookup-written out printed (some e) other b n f = f
  lookup-written out printed none other b n f = elim (Bool-cases (path == other)) [
    | inl t ↦ absurd (ground (arith, ==_iff path other))
    | inr t ↦ ground (arith, lookup-insert path other out disk)
  ]

  -- hubctl config init overwrites no file, whatever the flags are and whether the write succeeds.
  pub config_init_keeps :
      (random empty : Bytes) (server_addr client_name secret_val other : String) (b : Bytes)
      → lookup other disk ≡ some b
      → lookup other
          (config_init sys random empty cfg_path server_addr client_name secret_val disk).disk
        ≡ some b
  unfolding config_init
  config_init_keeps random empty server_addr client_name secret_val other b f =
      elim (Option-cases (lookup path disk)) [
        | inr (old, e) ↦ rw (e, exists) f
        | inl e ↦
            rw (e, exists)
              (elim (Bool-cases (server_addr == "")) [
                | inl t ↦ rw t f
                | inr t ↦ rw t (lookup-written _ _ (sys.write_error path) other b e f)
              ])
      ]
