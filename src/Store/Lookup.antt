-- ===== src/Store/Lookup.antt =====
-- The rules of a client as two finite maps, from the names of services and from listen addresses, and
-- what each method does to them.
use clienthub.Prelude.{
  ◌≡◌, refl, ap, String, ◌&&◌, Option, none, some, ◌==◌, ==_iff, ==_refl, string_eq, if◌then◌else◌,
  arith, lookup, insert, lookup-insert,
}
use clienthub.Proto.Payload.{ExposeRule, ForwardInfo, Codec}
use clienthub.Store.{
  Store, Clients, ClientRules, WriteOutcome, Saved, returns, save, get_client_rules, pointed,
  or_created, add_expose, add_forward, remove_expose, remove_forward, drop_expose, drop_forward,
}
use clienthub.Store.Rules.{upsert, remove_by, find_by, find_by-upsert, find_by-remove_by}

abbrev pub find_expose : String → String → Store → Option ExposeRule
find_expose client name s =
    find_by (λ r. r.name) name (or_created (get_client_rules client s)).expose

abbrev pub find_forward : String → String → Store → Option ForwardInfo
find_forward client addr s =
    find_by (λ f. f.listen_addr) addr (or_created (get_client_rules client s)).forward

pub clients-save :
    (codec : Codec Clients) (w : WriteOutcome) (s : Store) → (save codec w s).0.clients ≡ s.clients
unfolding save
clients-save codec w s = ground arith

pointed-some :
    {o : Option (Option ClientRules)} {r : ClientRules} → pointed o ≡ some r → o ≡ some (some r)
pointed-some {o = none} e = cc
pointed-some {o = some p} e = ap {B = Option (Option ClientRules)} some e

-- The rules of a client after the entry of a client was written.
abbrev rules_set : String → ClientRules → Store → Store
rules_set client rules s = record s { clients = insert client (some rules) s.clients }

get_client_rules-save_set :
    (codec : Codec Clients) (w : WriteOutcome) (client other : String) (rules : ClientRules)
    (s : Store)
    → get_client_rules other (save codec w (rules_set client rules s)).0
      ≡ (if client == other then some rules else get_client_rules other s)
unfolding get_client_rules
get_client_rules-save_set codec w client other rules s =
    rw
      (
        clients-save codec w (rules_set client rules s),
        lookup-insert client other (some rules) s.clients,
      )
      (ground arith)

module _ (codec : Codec Clients) (w : WriteOutcome) (client : String) where
  -- AddExpose files the rule under its client and its name, in place of one that was there, and
  -- changes no other expose rule and no forward rule, also if the file could not be written.
  pub find-add_expose :
      (rule : ExposeRule) (s : Store) (c n : String)
      → (find_expose c n (add_expose codec w client rule s).0
          ≡ (if client == c && rule.name == n then some rule else find_expose c n s))
        × (find_forward c n (add_expose codec w client rule s).0 ≡ find_forward c n s)
  unfolding add_expose
  find-add_expose rule s c n =
      let rules = or_created (get_client_rules client s) in
      let new = record rules { expose = upsert (λ r. r.name) rule rules.expose } in
      (
        ground (
          arith,
          ==_iff client c,
          get_client_rules-save_set codec w client c new s,
          find_by-upsert (λ (r : ExposeRule). r.name) n rule rules.expose,
        ),
        ground (arith, ==_iff client c, get_client_rules-save_set codec w client c new s),
      )

  -- AddForward files the rule under its client and its listen address, in place of one that was
  -- there, and changes no other forward rule and no expose rule, also if the file could not be written.
  pub find-add_forward :
      (fwd : ForwardInfo) (s : Store) (c n : String)
      → (find_forward c n (add_forward codec w client fwd s).0
          ≡ (if client == c && fwd.listen_addr == n then some fwd else find_forward c n s))
        × (find_expose c n (add_forward codec w client fwd s).0 ≡ find_expose c n s)
  unfolding add_forward
  find-add_forward fwd s c n =
      let rules = or_created (get_client_rules client s) in
      let new = record rules { forward = upsert (λ f. f.listen_addr) fwd rules.forward } in
      (
        ground (
          arith,
          ==_iff client c,
          get_client_rules-save_set codec w client c new s,
          find_by-upsert (λ (f : ForwardInfo). f.listen_addr) n fwd rules.forward,
        ),
        ground (arith, ==_iff client c, get_client_rules-save_set codec w client c new s),
      )

  find-drop_expose :
      (name : String) (s : Store) (o : Option (Option ClientRules)) {t : Saved} (c n : String)
      → lookup client s.clients ≡ o
      → drop_expose codec w client name s o ≡ returns t
      → (find_expose c n t.0 ≡ (if client == c && name == n then none else find_expose c n s))
        × (find_forward c n t.0 ≡ find_forward c n s)
  unfolding drop_expose get_client_rules
  find-drop_expose name s none c n l e =
      (ground (arith, ==_iff client c), ground (arith, ==_iff client c))
  find-drop_expose name s (some none) c n l e = cc
  find-drop_expose name s (some (some rules)) c n l e =
      let new = record rules { expose = remove_by (λ r. r.name) name rules.expose } in
      (
        ground (
          arith,
          ==_iff client c,
          get_client_rules-save_set codec w client c new s,
          find_by-remove_by (λ (r : ExposeRule). r.name) n name rules.expose,
        ),
        ground (arith, ==_iff client c, get_client_rules-save_set codec w client c new s),
      )

  find-drop_forward :
      (addr : String) (s : Store) (o : Option (Option ClientRules)) {t : Saved} (c n : String)
      → lookup client s.clients ≡ o
      → drop_forward codec w client addr s o ≡ returns t
      → (find_forward c n t.0 ≡ (if client == c && addr == n then none else find_forward c n s))
        × (find_expose c n t.0 ≡ find_expose c n s)
  unfolding drop_forward get_client_rules
  find-drop_forward addr s none c n l e =
      (ground (arith, ==_iff client c), ground (arith, ==_iff client c))
  find-drop_forward addr s (some none) c n l e = cc
  find-drop_forward addr s (some (some rules)) c n l e =
      let new = record rules { forward = remove_by (λ f. f.listen_addr) addr rules.forward } in
      (
        ground (
          arith,
          ==_iff client c,
          get_client_rules-save_set codec w client c new s,
          find_by-remove_by (λ (f : ForwardInfo). f.listen_addr) n addr rules.forward,
        ),
        ground (arith, ==_iff client c, get_client_rules-save_set codec w client c new s),
      )

  -- Where RemoveExpose returns, it has taken away the rule of that client and name, and no other rule.
  pub find-remove_expose :
      (name : String) (s : Store) {t : Saved} (c n : String)
      → remove_expose codec w client name s ≡ returns t
      → (find_expose c n t.0 ≡ (if client == c && name == n then none else find_expose c n s))
        × (find_forward c n t.0 ≡ find_forward c n s)
  unfolding remove_expose
  find-remove_expose name s c n e = find-drop_expose name s (lookup client s.clients) c n refl e

  -- Where RemoveForward returns, it has taken away the rule of that client and address, and no other.
  pub find-remove_forward :
      (addr : String) (s : Store) {t : Saved} (c n : String)
      → remove_forward codec w client addr s ≡ returns t
      → (find_forward c n t.0 ≡ (if client == c && addr == n then none else find_forward c n s))
        × (find_expose c n t.0 ≡ find_expose c n s)
  unfolding remove_forward
  find-remove_forward addr s c n e = find-drop_forward addr s (lookup client s.clients) c n refl e

  -- RemoveExpose of a client with rules returns, and filters its expose rules.
  pub get_client_rules-remove_expose :
      (name : String) (s : Store) (rules : ClientRules)
      → get_client_rules client s ≡ some rules
      → (t : Saved) × (remove_expose codec w client name s ≡ returns t)
        × (get_client_rules client t.0
            ≡ some (record rules { expose = remove_by (λ r. r.name) name rules.expose }))
  unfolding remove_expose
  get_client_rules-remove_expose name s rules e =
      let new = record rules { expose = remove_by (λ r. r.name) name rules.expose } in
      let here : lookup client s.clients ≡ some (some rules) =
        pointed-some (unfold get_client_rules in e) in
      (
        save codec w (rules_set client new s),
        rw (here, drop_expose) refl,
        ground (arith, get_client_rules-save_set codec w client client new s, ==_refl client),
      )
