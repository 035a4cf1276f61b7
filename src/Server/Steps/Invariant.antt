-- ===== src/Server/Steps/Invariant.antt =====
-- What holds of the server whatever critical sections run, in whatever order.
use clienthub.Prelude.{
  ◌+◌, ◌%◌, ◌^◌, ◌≡◌, refl, String, lookup-insert, lookup-delete, nat_eq, string_eq, arith, inl,
  inr,
}
use clienthub.Proto.Message.{Message}
use clienthub.Proto.Payload.{Codec}
use clienthub.Registry.{add_client, allocate_session, remove_tunnel}
use clienthub.Registry.Invariant.{IsFiled, Call, step, step-IsFiled, new_registry-IsFiled}
use clienthub.Store.{Clients, Store}
use clienthub.Store.Order.{IsSound, step-IsSound}
use clienthub.Server.State.{Server, new_server, drop_client, registry-drop_client}
use clienthub.Server.Pending.{handle_client_response}
use clienthub.Server.Pending.Answer.{HasOldChannels, handle_client_response-outcome}
use clienthub.Server.Steps.{Step, Reaches, here, next}
use clienthub.Server.Steps.Connections.{
  AreApart, insert-AreApart, close-AreApart, drop_client-AreApart, update_services-AreApart,
}

-- The registry and the store are in order, every waiting request has a channel of its past, and the
-- connections of the sessions are open and apart.
pub record IsOrderly (s : Server) : Type 0 where
  pub registry : IsFiled s.registry
  pub store : IsSound s.store
  pub channels : HasOldChannels s
  pub connections : AreApart s.registry.clients s.closed

module _ (codec : Codec Clients) where
  drop_client-HasOldChannels :
      (name : String) (s : Server) → HasOldChannels s → HasOldChannels (drop_client name s)
  unfolding drop_client
  drop_client-HasOldChannels name s h = record { old = h.old }

  store-drop_client : (name : String) (s : Server) → (drop_client name s).store ≡ s.store
  unfolding drop_client
  store-drop_client name s = refl

  handle_client_response-IsOrderly :
      (s : Server) (msg : Message) → IsOrderly s → IsOrderly (handle_client_response msg s)
  handle_client_response-IsOrderly s msg h = elim (handle_client_response-outcome msg s) [
    | inl e ↦ rw e h
    | inr (ch, e) ↦ rw e (record {
      registry = h.registry;
      store = h.store;
      channels = record {
        old = λ id c g.
            ground (arith, lookup-delete msg.session_id id s.pending_reqs, h.channels.old id c);
      };
      connections = h.connections;
    })
  ]

  Step-IsOrderly : {s t : Server} → Step codec s t → IsOrderly s → IsOrderly t
  unfolding step add_client
  Step-IsOrderly (Step.updates s name services) h = record {
    registry = step-IsFiled s.registry (Call.updates name services) h.registry;
    store = h.store;
    channels = record { old = h.channels.old };
    connections = update_services-AreApart name services s.registry s.closed h.connections;
  }
  Step-IsOrderly (Step.allocates s source target service protocol now) h = record {
    registry =
        step-IsFiled s.registry (Call.allocates source target service protocol now) h.registry;
    store = h.store;
    channels = record { old = h.channels.old };
    connections = unfold allocate_session in h.connections;
  }
  Step-IsOrderly (Step.ends_tunnel s id) h = record {
    registry = step-IsFiled s.registry (Call.drops id) h.registry;
    store = h.store;
    channels = record { old = h.channels.old };
    connections = unfold remove_tunnel in h.connections;
  }
  Step-IsOrderly (Step.drops s name) h = record {
    registry =
        rw (registry-drop_client name s) (step-IsFiled s.registry (Call.removes name) h.registry);
    store = rw (store-drop_client name s) h.store;
    channels = drop_client-HasOldChannels name s h.channels;
    connections = drop_client-AreApart name s h.connections;
  }
  Step-IsOrderly (Step.adds s session new) h = record {
    registry = step-IsFiled s.registry (Call.adds session) h.registry;
    store = h.store;
    channels = record { old = h.channels.old };
    connections =
        insert-AreApart session.name session s.registry.clients s.closed new.is_open new.unused
          h.connections;
  }
  Step-IsOrderly (Step.closes s conn new) h = record {
    registry = h.registry;
    store = h.store;
    channels = record { old = h.channels.old };
    connections =
        close-AreApart conn s.registry.clients s.closed new.is_open new.unused h.connections;
  }
  Step-IsOrderly (Step.answers s msg) h = handle_client_response-IsOrderly s msg h
  Step-IsOrderly (Step.files s) h = record {
    registry = h.registry;
    store = h.store;
    channels = record {
      old = λ id c e. ground (
        arith,
        lookup-insert ((s.next_req_id + 1) % 2 ^ 32) id s.next_channel s.pending_reqs,
        h.channels.old id c,
      );
    };
    connections = h.connections;
  }
  Step-IsOrderly (Step.wakes s ch) h = record {
    registry = h.registry;
    store = h.store;
    channels = record { old = h.channels.old };
    connections = h.connections;
  }
  Step-IsOrderly (Step.forgets s id) h = record {
    registry = h.registry;
    store = h.store;
    channels = record {
      old = λ j c e. ground (arith, lookup-delete id j s.pending_reqs, h.channels.old j c);
    };
    connections = h.connections;
  }
  Step-IsOrderly (Step.stores s c t e) h =
      let (t', e', g) = step-IsSound codec s.store c h.store in
      let same : t' ≡ t = cc (e, e') in
      record {
        registry = h.registry;
        store = rw (← same) g;
        channels = record { old = h.channels.old };
        connections = h.connections;
      }
  Step-IsOrderly (Step.writes_late s file) h = record {
    registry = h.registry;
    store = record { distinct = h.store.distinct; rules = h.store.rules };
    channels = record { old = h.channels.old };
    connections = h.connections;
  }

  -- The server stays in order, whatever critical sections run in whatever order: the two maps of the
  -- registry, the rules of the store, the channels of the waiting requests, and the connections, of
  -- which no two sessions share one, no session has a closed one, and none is closed twice.
  pub Reaches-IsOrderly : {s t : Server} → Reaches codec s t → IsOrderly s → IsOrderly t
  Reaches-IsOrderly here h = h
  Reaches-IsOrderly (next r st) h = Step-IsOrderly st (Reaches-IsOrderly r h)

-- A server whose store has no rules twice is in order at its start.
pub new_server-IsOrderly : (store : Store) → IsSound store → IsOrderly (new_server store)
new_server-IsOrderly store h = record {
  registry = new_registry-IsFiled;
  store = h;
  channels = record { old = λ id c e. cc };
  connections = record { own = λ m n a b e f g. cc; live = λ n a e. cc; once = tt };
}
