-- ===== src/Store/Listing.antt =====
-- ListExpose against the rules that are stored.
use mathlib.Core.List.{append-nil}
use clienthub.Prelude.{
  ◌≡◌, refl, String, Bool, not, ◌&&◌, ◌||◌, Option, none, some, List, [], ◌∷◌, ◌++◌, map, ◌==◌,
  ==_iff, string_eq, if◌then◌else◌, arith, lookup, Distinct, All, All-of_lookup, Bool-cases, inl,
  inr,
}
use clienthub.Proto.Payload.{ExposeRule, ExposeListEntry}
use clienthub.Store.{
  Store, Clients, ClientRules, Return, returns, panics, pointed, or_created, list_expose, list_rows,
  rows,
}
use clienthub.Store.Order.{IsSound, AreRules}

-- The rules of the rows under this client, in their order.
abbrev pub rules_under : String → List ExposeListEntry → List ExposeRule
rules_under c [] = []
rules_under c (e ∷ es) =
    let rest = rules_under c es in if e.client_name == c then e.rule ∷ rest else rest

rules_under-append :
    (c name : String) (rs : List ExposeRule) (rest : List ExposeListEntry)
    → rules_under c (map (λ r. record { client_name = name; rule = r }) rs ++ rest)
      ≡ (if name == c then rs ++ rules_under c rest else rules_under c rest)
rules_under-append c name [] rest = ground arith
rules_under-append c name (r ∷ rs) rest = ground (arith, rules_under-append c name rs rest)

-- The expose rules that are stored for the client.
abbrev pub expose_of : Option (Option ClientRules) → List ExposeRule
expose_of o = (or_created (pointed o)).expose

-- A client passes the filter if the filter is empty or its name.
abbrev pub passes : String → String → Bool
passes filter name = filter == "" || name == filter

list_rows-total :
    (filter : String) (m : Clients)
    → All (λ e. AreRules e.1) m
    → (rs : List ExposeListEntry) × (list_rows filter m ≡ returns rs)
unfolding list_rows rows
list_rows-total filter [] h = ([], refl)
list_rows-total filter ((name, none) ∷ m) h = absurd h.0
list_rows-total filter ((name, some r) ∷ m) h =
    let (rs, e) = list_rows-total filter m h.1 in
    elim (Bool-cases (not (filter == "") && not (name == filter))) [
      | inl skip ↦ (rs, rw skip e)
      | inr take ↦ (
        map (λ x. record { client_name = name; rule = x }) r.expose ++ rs,
        rw (take, e, rows) refl,
      )
    ]

rows-returns :
    (name : String) (r : ClientRules) (ret : Return (List ExposeListEntry))
    {rs : List ExposeListEntry}
    → rows name (some r) ret ≡ returns rs
    → (rest : List ExposeListEntry) × (ret ≡ returns rest)
      × (rs ≡ map (λ x. record { client_name = name; rule = x }) r.expose ++ rest)
unfolding rows
rows-returns name r panics e = cc
rows-returns name r (returns rest) e = (rest, refl, ground arith)

rules_under-list_rows :
    (filter c : String) (m : Clients) {rs : List ExposeListEntry}
    → Distinct m
    → list_rows filter m ≡ returns rs
    → rules_under c rs ≡ (if passes filter c then expose_of (lookup c m) else [])
unfolding list_rows rows
rules_under-list_rows filter c [] d e = ground arith
rules_under-list_rows filter c ((name, none) ∷ m) d e =
    elim (Bool-cases (not (filter == "") && not (name == filter))) [
      | inl skip ↦
          let ih = rules_under-list_rows filter c m d.1 (rw skip at e) in
          ground (arith, ih, d.0, ==_iff name c, ==_iff name filter, ==_iff c filter)
      | inr take ↦ cc (rw take at e)
    ]
rules_under-list_rows filter c ((name, some r) ∷ m) {rs} d e =
    elim (Bool-cases (not (filter == "") && not (name == filter))) [
      | inl skip ↦
          let ih = rules_under-list_rows filter c m d.1 (rw skip at e) in
          ground (arith, ih, d.0, ==_iff name c, ==_iff name filter, ==_iff c filter)
      | inr take ↦
          let (rest, f, g) = rows-returns name r (list_rows filter m) (rw take at e) in
          let ih = rules_under-list_rows filter c m d.1 f in
          rw g (
            ground (
              arith,
              ih,
              d.0,
              rules_under-append c name r.expose rest,
              append-nil r.expose,
              ==_iff name c,
              ==_iff name filter,
              ==_iff c filter,
            ))
    ]

-- ListExpose of a store in order returns. Its rows under a client are exactly the stored expose rules of
-- the client, each once and in their order, if the filter is empty or names the client, and none
-- otherwise.
pub rules_under-list_expose :
    (filter : String) (s : Store)
    → IsSound s
    → (rs : List ExposeListEntry) × (list_expose filter s ≡ returns rs)
      × ((c : String)
          → rules_under c rs ≡ (if passes filter c then expose_of (lookup c s.clients) else []))
unfolding list_expose
rules_under-list_expose filter s h =
    let (rs, e) =
      list_rows-total filter s.clients
        (All-of_lookup (λ (c : String) p. AreRules p) s.clients h.distinct h.rules) in
    (rs, e, λ c. rules_under-list_rows filter c s.clients h.distinct e)
