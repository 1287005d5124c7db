-- ===== src/Stack/Start.antt =====
-- main.py, `BaseAsStack.start`: what is bound, and what a start that raises leaves to `stop`.
use as_platform.Base.{ℕ, ◌≡◌, refl, sym, ap, ◌∙◌, String, some, Reply, value, failed}
use as_platform.World.{Env, log_event}
use as_platform.CallController.{local_contact}
use as_platform.CallMap.{CallMap}
use as_platform.SipAdapter.{TransactionManager}
use as_platform.Transport.{Transport}
use as_platform.Stack.{
  Stack, Hooks, start, stop, config_for, with_transport, with_config, with_call_map, with_manager,
  set_sip_conf, log_bound,
}
use as_platform.Stack.Stop.{stop-Released}

module _ {T E : Type 0} (env : Env) (tr : Transport E T) (hooks : Hooks E) where
  -- The stack `t` is bound: its configuration is that of the transport's binding and the peer.
  abbrev Configured : String × ℕ → Stack T → Stack T → Type 0
  Configured binding s t =
      (tr.sip_config t.transport ≡ value binding)
      × (local_contact t.global_config t.world.sip_conf ≡ binding)
      × (t.global_config.nh_addr ≡ some (s.peer_address, s.peer_port))

  abbrev Held : CallMap → TransactionManager → Stack T → Type 0
  Held m manager t =
      (hooks.create_call_map t.global_config ≡ value m)
      × (t.call_map ≡ some m)
      × (hooks.new_manager t.global_config ≡ value manager)
      × (t.transaction_manager ≡ some manager)

  abbrev pub Outcome : Stack T → Reply E (Unit {0}) × Stack T → Type 0
  Outcome s (value _, t) =
      (t.transport ≡ (tr.start s.transport).1)
      × ((binding : String × ℕ) × (m : CallMap) × (manager : TransactionManager) × Configured
            binding s t
          × Held m manager t)
  Outcome s (failed e, t) =
      (t.transport ≡ (tr.start s.transport).1)
      × (t.transaction_manager ≡ s.transaction_manager)
      × ((stop tr t).1.transport ≡ tr.stop (tr.start s.transport).1)

  stopped_transport : (t : Stack T) → (stop tr t).1.transport ≡ tr.stop t.transport
  stopped_transport t =
      let (end, e, released, _, _) = stop-Released tr t in ap (λ r. r.1.transport) e ∙ released.0

  raised_start :
      (s t : Stack T)
      → t.transport ≡ (tr.start s.transport).1
      → t.transaction_manager ≡ s.transaction_manager
      → (e : E) → Outcome s (failed e, t)
  raised_start s t moved m e = (moved, m, stopped_transport t ∙ ap tr.stop moved)

  manager-Outcome :
      (r : Reply E TransactionManager) (binding : String × ℕ) (m : CallMap) (s t : Stack T)
      → hooks.new_manager t.global_config ≡ r
      → t.transport ≡ (tr.start s.transport).1
      → t.transaction_manager ≡ s.transaction_manager
      → Configured binding s t
      → hooks.create_call_map t.global_config ≡ value m
      → t.call_map ≡ some m
      → Outcome s (with_manager env tr hooks r t)
  unfolding with_manager log_bound log_event
  manager-Outcome (failed e) binding m s t made moved kept c mapped held =
      raised_start s t moved kept e
  manager-Outcome (value manager) binding m s t made moved kept c mapped held =
      (moved, (binding, m, manager, c, (mapped, held, made, refl)))

  map-Outcome :
      (r : Reply E CallMap) (binding : String × ℕ) (s t : Stack T)
      → hooks.create_call_map t.global_config ≡ r
      → t.transport ≡ (tr.start s.transport).1
      → t.transaction_manager ≡ s.transaction_manager
      → Configured binding s t
      → Outcome s (with_call_map env tr hooks r t)
  unfolding with_call_map
  map-Outcome (failed e) binding s t made moved kept c = raised_start s t moved kept e
  map-Outcome (value m) binding s t made moved kept c =
      manager-Outcome (hooks.new_manager t.global_config) binding m s
        (record t { call_map = some m }) refl moved kept c made refl

  config-Outcome :
      (r : Reply E (String × ℕ)) (s t : Stack T)
      → tr.sip_config t.transport ≡ r
      → t.transport ≡ (tr.start s.transport).1
      → t.transaction_manager ≡ s.transaction_manager
      → t.peer_address ≡ s.peer_address
      → t.peer_port ≡ s.peer_port
      → Outcome s (with_config env tr hooks r t)
  unfolding with_config local_contact
  config-Outcome (failed e) s t made moved kept a p = raised_start s t moved kept e
  config-Outcome (value binding) s t made moved kept a p =
      map-Outcome (hooks.create_call_map (config_for env tr hooks t binding)) binding s
        (record t { global_config = config_for env tr hooks t binding }) refl moved kept
        (made, refl, λ i. some (a i, p i))

  transport-Outcome :
      (r : Reply E (Unit {0}) × T) (s t : Stack T)
      → tr.start s.transport ≡ r
      → t.transaction_manager ≡ s.transaction_manager
      → t.peer_address ≡ s.peer_address
      → t.peer_port ≡ s.peer_port
      → Outcome s (with_transport env tr hooks r t)
  unfolding with_transport
  transport-Outcome (failed e, u) s t made kept a p =
      raised_start s (record t { transport = u }) (sym (ap (λ r. r.1) made)) kept e
  transport-Outcome (value _, u) s t made kept a p =
      config-Outcome (tr.sip_config u) s (record t { transport = u }) refl
        (sym (ap (λ r. r.1) made)) kept a p

  -- Starting the stack starts the transport. It either ends with a call map and a manager, made for
  -- one configuration: its contact address is the one that the transport gives sippy, and its next
  -- hop is the peer. Or it raises; then the manager is the one from before, and a stop still hands the
  -- started transport to the transport's own stop.
  pub start-Outcome : (s : Stack T) → Outcome s (start env tr hooks s)
  unfolding start set_sip_conf
  start-Outcome s = transport-Outcome (tr.start s.transport) s _ refl refl refl refl
