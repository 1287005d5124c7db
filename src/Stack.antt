-- ===== src/Stack.antt =====
-- main.py, `BaseAsStack`: the process shell around the transport, the call map, sippy's transaction
-- manager and the internal API, and `ShutdownController` of bootstrap.py. The application's hooks,
-- sippy's constructor of the manager and the event loop are parameters; the server of the internal
-- API is a number.
pub mod Start
pub mod Releases
pub mod Stop
pub mod Loop
pub mod SipLogger
use as_platform.Base.{
  ℕ, suc, ◌<>◌, Bool, true, false, String, List, [], ◌∷◌, ◌++◌, Option, none, some, Reply, value,
  failed, text,
}
use as_platform.Base.Dict.{Dict}
use as_platform.Base.Text.{str}
use as_platform.World.{World, Env, GlobalConfig, SipConf, Exn, SippyCall, emit, log_event, info}
use as_platform.CallController.{internal, cancel_timer, text_fields}
use as_platform.CallMap.{CallMap, dispose}
use as_platform.SipAdapter.{TransactionManager, cancel_transaction_timers}
use as_platform.Transport.{Transport}

-- What the stack asks of the others while it stops, in order. Each is recorded with what it is
-- handed.
pub data Release : Type 0 where
  cancel_loop_timer : ℕ → Release
  dispose_call_map : CallMap → Release
  cancel_transactions : List ℕ → Release
  shutdown_manager : TransactionManager → Release
  stop_internal_api : ℕ → Release
  stop_transport : Release

pub record Stack (T : Type 0) : Type 0 where
  pub sip_user_agent_name : String
  pub bound_log_message : String
  pub transport : T
  pub peer_address : String
  pub peer_port : ℕ
  pub allowed_peers : List String
  pub api_address : String
  pub api_port : ℕ
  pub internal_api : Option ℕ
  pub shutdown_timer : Option ℕ
  pub reload_timer : Option ℕ
  pub transaction_manager : Option TransactionManager
  pub global_config : GlobalConfig
  pub call_map : Option CallMap
  pub world : World
  pub releases : List Release

-- The hooks of the application, and what they and sippy may refuse.
pub record Hooks (E : Type 0) : Type 0 where
  pub create_call_map : GlobalConfig → Reply E CallMap
  pub new_manager : GlobalConfig → Reply E TransactionManager
  pub create_internal_api_server : String → ℕ → Reply E ℕ
  pub start_server : ℕ → Reply E (Unit {0})

-- `",".join(peers)`
unfoldable join : List String → String
join [] = ""
join (p ∷ []) = p
join (p ∷ q ∷ ps) = p <> ("," <> join (q ∷ ps))

-- One entry of the log, from the stack.
abbrev log_line : Env → String → Dict String → World → World
log_line env event fields w = log_event env info event "" internal "" (text_fields fields) w

module _ {T E : Type 0} (env : Env) (tr : Transport E T) (hooks : Hooks E) where
  unfoldable pub log_bound : Stack T → Stack T
  unfolding join
  log_bound s = record s {
    world =
        log_line env s.bound_log_message
          (("listen", tr.address s.transport <> (":" <> str (tr.port s.transport)))
            ∷ ("next_hop", s.peer_address <> (":" <> str s.peer_port))
            ∷ ("allowed_peers", join s.allowed_peers)
            ∷ [])
          s.world;
  }

  unfoldable pub with_manager : Reply E TransactionManager → Stack T → Reply E (Unit {0}) × Stack T
  unfolding log_bound
  with_manager (failed e) s = (failed e, s)
  with_manager (value m) s = (value tt, log_bound (record s { transaction_manager = some m }))

  unfoldable pub with_call_map : Reply E CallMap → Stack T → Reply E (Unit {0}) × Stack T
  unfolding with_manager
  with_call_map (failed e) s = (failed e, s)
  with_call_map (value m) s =
      with_manager (hooks.new_manager s.global_config) (record s { call_map = some m })

  -- `self.global_config = {…}`. sippy's logger is not part of the state.
  abbrev pub config_for : Stack T → String × ℕ → GlobalConfig
  config_for s (address, port) = record {
    sip_address = some address;
    sip_port = some port;
    sip_uaname = some s.sip_user_agent_name;
    next_hop_expire = none;
    nh_addr = some (s.peer_address, s.peer_port);
  }

  unfoldable pub with_config : Reply E (String × ℕ) → Stack T → Reply E (Unit {0}) × Stack T
  unfolding with_call_map
  with_config (failed e) s = (failed e, s)
  with_config (value binding) s =
      with_call_map (hooks.create_call_map (config_for s binding))
        (record s { global_config = config_for s binding })

  unfoldable pub with_transport : Reply E (Unit {0}) × T → Stack T → Reply E (Unit {0}) × Stack T
  unfolding with_config
  with_transport (failed e, t) s = (failed e, record s { transport = t })
  with_transport (value _, t) s = with_config (tr.sip_config t) (record s { transport = t })

  -- `SipConf.my_uaname`, `my_address` and `my_port`
  unfoldable pub set_sip_conf : Stack T → Stack T
  set_sip_conf s = record s {
    world = record s.world {
      sip_conf = record {
        my_address = tr.address s.transport;
        my_port = tr.port s.transport;
        my_uaname = s.sip_user_agent_name;
      };
    };
  }

  unfoldable pub start : Stack T → Reply E (Unit {0}) × Stack T
  unfolding with_transport set_sip_conf
  start s = with_transport (tr.start s.transport) (set_sip_conf s)

  -- `start_internal_api`, once the server exists
  unfoldable with_server : Reply E (Unit {0}) → ℕ → Stack T → Reply E ℕ × Stack T
  with_server (failed e) server s = (failed e, s)
  with_server (value _) server s = (
    value server,
    record s {
      internal_api = some server;
      world =
          log_line env "internal api listening"
            (("address", s.api_address <> (":" <> str s.api_port)) ∷ []) s.world;
    },
  )

  unfoldable start_internal_api : Stack T → Reply E ℕ × Stack T
  unfolding with_server
  start_internal_api s = elim (hooks.create_internal_api_server s.api_address s.api_port) [
    | failed e ↦ (failed e, s)
    | value server ↦ with_server (hooks.start_server server) server s
  ]

-- `Timeout(…)` in the loop: the next timer, which fires until it is cancelled.
abbrev arm : ℕ → World → World
arm duration w =
    emit (SippyCall.start_timer w.next_timer duration)
      (record w { next_timer = suc w.next_timer; armed = w.armed ++ w.next_timer ∷ [] })

module _ {T : Type 0} where
  -- `run`, up to the event loop, with the two intervals in milliseconds.
  unfoldable arm_loop : Env → ℕ → ℕ → Dict String → Stack T → Stack T
  arm_loop env shutdown_poll reload_poll fields s =
      let first = arm shutdown_poll s.world in
      record s {
        shutdown_timer = some s.world.next_timer;
        reload_timer = some first.next_timer;
        world = log_line env "sippy event loop running" fields (arm reload_poll first);
      }

  abbrev pub release : Release → Stack T → Stack T
  release r s = record s { releases = s.releases ++ r ∷ [] }

  unfoldable pub release_shutdown_timer : Option ℕ → Stack T → Stack T
  release_shutdown_timer none s = s
  release_shutdown_timer (some timer) s =
      release (cancel_loop_timer timer)
        (record s { shutdown_timer = none; world = cancel_timer timer s.world })

  unfoldable pub release_reload_timer : Option ℕ → Stack T → Stack T
  release_reload_timer none s = s
  release_reload_timer (some timer) s =
      release (cancel_loop_timer timer)
        (record s { reload_timer = none; world = cancel_timer timer s.world })

  unfoldable pub release_call_map : Option CallMap → Stack T → Option Exn × Stack T
  release_call_map none s = (none, s)
  release_call_map (some m) s =
      let (e, left, w) = dispose m s.world in
      (e, release (dispose_call_map m) (record s { call_map = some left; world = w }))

  unfoldable pub release_manager : Option TransactionManager → Stack T → Stack T
  release_manager none s = s
  release_manager (some m) s =
      let (count, timers, drained) = cancel_transaction_timers m in
      release (shutdown_manager drained)
        (release (cancel_transactions timers) (record s { transaction_manager = none }))

  unfoldable pub release_internal_api : Option ℕ → Stack T → Stack T
  release_internal_api none s = s
  release_internal_api (some server) s =
      release (stop_internal_api server) (record s { internal_api = none })

  module _ {E : Type 0} (tr : Transport E T) where
    unfoldable pub release_rest : Option Exn × Stack T → Option Exn × Stack T
    unfolding release_manager release_internal_api
    release_rest (some e, s) = (some e, s)
    release_rest (none, s) =
        let managed = release_manager s.transaction_manager s in
        let served = release_internal_api managed.internal_api managed in
        (none, release stop_transport (record served { transport = tr.stop served.transport }))

    -- `stop`. The calls of sippy's manager, of the API server and of the transport raise nothing here.
    unfoldable pub stop : Stack T → Option Exn × Stack T
    unfolding release_shutdown_timer release_reload_timer release_call_map release_rest
    stop s =
        let unpolled = release_shutdown_timer s.shutdown_timer s in
        let unloaded = release_reload_timer unpolled.reload_timer unpolled in
        release_rest (release_call_map unloaded.call_map unloaded)
