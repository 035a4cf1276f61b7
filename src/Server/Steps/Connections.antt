-- ===== src/Server/Steps/Connections.antt =====
-- The connections of the sessions, and those that were closed.
use clienthub.Prelude.{
  ℕ, ◌≡◌, ◌≢◌, sym, ◌∙◌, String, false, some, List, [], ◌∷◌, ==_iff, nat_eq, string_eq, Map, lookup,
  insert, delete, lookup-insert, lookup-delete, arith, Option-cases, inl, inr,
}
use clienthub.Proto.Payload.{ServiceInfo}
use clienthub.Registry.{ClientSession, Registry, update_services, get_client, remove_client}
use clienthub.Registry.Laws.{get_client-update_services}
use clienthub.Server.State.{Server, drop_client, close_conn}
use clienthub.Server.Steps.{among, IsNew}

-- No number stands twice.
abbrev pub IsOnce : List ℕ → Type 0
IsOnce [] = Unit
IsOnce (x ∷ xs) = (among x xs ≡ false) × IsOnce xs

-- No two sessions share a connection, no session has a closed one, and none was closed twice.
pub record AreApart (clients : Map String ClientSession) (closed : List ℕ) : Type 0 where
  pub own :
      (m n : String) (a b : ClientSession)
      → lookup m clients ≡ some a
      → lookup n clients ≡ some b
      → a.conn ≡ b.conn
      → m ≡ n
  pub live :
      (n : String) (a : ClientSession) → lookup n clients ≡ some a → among a.conn closed ≡ false
  pub once : IsOnce closed

among-cons : (x y : ℕ) (xs : List ℕ) → x ≢ y → among x xs ≡ false → among x (y ∷ xs) ≡ false
among-cons x y xs ne h = ground (arith, ==_iff y x)

pub insert-AreApart :
    (name : String) (s : ClientSession) (clients : Map String ClientSession) (closed : List ℕ)
    → among s.conn closed ≡ false
    → ((n : String) (a : ClientSession) → lookup n clients ≡ some a → a.conn ≢ s.conn)
    → AreApart clients closed
    → AreApart (insert name s clients) closed
insert-AreApart name s clients closed o u h = record {
  own = λ m n a b e f g. ground (
    arith,
    lookup-insert name m s clients,
    lookup-insert name n s clients,
    ==_iff name m,
    ==_iff name n,
    h.own m n a b,
    u m a,
    u n b,
  );
  live = λ n a e. ground (arith, lookup-insert name n s clients, h.live n a);
  once = h.once;
}

pub close-AreApart :
    (conn : ℕ) (clients : Map String ClientSession) (closed : List ℕ)
    → among conn closed ≡ false
    → ((n : String) (a : ClientSession) → lookup n clients ≡ some a → a.conn ≢ conn)
    → AreApart clients closed
    → AreApart clients (conn ∷ closed)
close-AreApart conn clients closed o u h = record {
  own = h.own;
  live = λ n a e. among-cons a.conn conn closed (u n a e) (h.live n a e);
  once = (o, h.once);
}

-- The session that is taken out is the only one that has the connection that is then closed.
delete-AreApart :
    (name : String) (old : ClientSession) (clients : Map String ClientSession) (closed : List ℕ)
    → lookup name clients ≡ some old
    → AreApart clients closed
    → AreApart (delete name clients) (old.conn ∷ closed)
delete-AreApart name old clients closed e h = record {
  own = λ m n a b f g k.
      ground (arith, lookup-delete name m clients, lookup-delete name n clients, h.own m n a b);
  live = λ n a f. ground (
    arith,
    lookup-delete name n clients,
    ==_iff name n,
    h.live n a,
    h.own name n old a,
    among-cons a.conn old.conn closed,
  );
  once = (h.live name old e, h.once);
}

-- A name without a session.
absent-AreApart :
    (name : String) (clients : Map String ClientSession) (closed : List ℕ)
    → AreApart clients closed
    → AreApart (delete name clients) closed
absent-AreApart name clients closed h = record {
  own = λ m n a b f g k.
      ground (arith, lookup-delete name m clients, lookup-delete name n clients, h.own m n a b);
  live = λ n a f. ground (arith, lookup-delete name n clients, h.live n a);
  once = h.once;
}

pub drop_client-AreApart :
    (name : String) (s : Server)
    → AreApart s.registry.clients s.closed
    → AreApart (drop_client name s).registry.clients (drop_client name s).closed
unfolding drop_client remove_client
drop_client-AreApart name s h = elim (Option-cases (lookup name s.registry.clients)) [
  | inl e ↦ rw (e, close_conn) (absent-AreApart name s.registry.clients s.closed h)
  | inr (old, e) ↦ rw (e, close_conn) (delete-AreApart name old s.registry.clients s.closed e h)
]

-- What is new stays new when a client is dropped.
pub drop_client-IsNew :
    (name : String) (conn : ℕ) (s : Server) → IsNew conn s → IsNew conn (drop_client name s)
unfolding drop_client remove_client
drop_client-IsNew name conn s h = record {
  is_open = elim (Option-cases (lookup name s.registry.clients)) [
    | inl e ↦ rw (e, close_conn) h.is_open
    | inr (old, e) ↦
        rw (e, close_conn) (ground (arith, ==_iff old.conn conn, h.is_open, h.unused name old e))
  ];
  unused = λ n a e. ground (arith, lookup-delete name n s.registry.clients, h.unused n a);
}

-- A session keeps its connection when its services change.
same_conn :
    (name n : String) (services : List ServiceInfo) (r : Registry) {a : ClientSession}
    → lookup n (update_services name services r).clients ≡ some a
    → (b : ClientSession) × (lookup n r.clients ≡ some b) × (b.conn ≡ a.conn)
unfolding get_client
same_conn name n services r e = elim (Option-cases (lookup n r.clients)) [
  | inl f ↦ absurd (ground (arith, get_client-update_services name n services r))
  | inr (b, f) ↦ (b, f, ground (arith, get_client-update_services name n services r))
]

pub update_services-AreApart :
    (name : String) (services : List ServiceInfo) (r : Registry) (closed : List ℕ)
    → AreApart r.clients closed
    → AreApart (update_services name services r).clients closed
update_services-AreApart name services r closed h = record {
  own = λ m n a b e f g.
      let (a', e', i) = same_conn name m services r e in
      let (b', f', j) = same_conn name n services r f in h.own m n a' b' e' f' (i ∙ g ∙ sym j);
  live = λ n a e. let (b, f, i) = same_conn name n services r e in rw (← i) (h.live n b f);
  once = h.once;
}
