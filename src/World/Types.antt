-- ===== src/World/Types.antt =====
-- The records and events that the controllers and sippy exchange.
use as_platform.Base.{ℕ, Bool, String, List, Option, Value}
use as_platform.Base.Dict.{Dict}
use as_platform.Errors.{AsError}
use as_platform.Metrics.{MetricsRegistry, CallDisposition}
use as_platform.Tracing.{TraceRecorder}

-- hop.py. The field bounds of the pydantic model are checked where the configuration is loaded.
pub record NextHop : Type 0 where
  pub name : String
  pub address : String
  pub port : ℕ
  pub transport : String
  pub priority : ℕ
  pub description : String

-- The data of a `CCEventTry` that the library reads: `getData()[2]` is the called number.
pub record TryData : Type 0 where
  pub call_id : String
  pub calling : String
  pub called : String

-- The data of a response event: its status code and its reason.
pub record Response : Type 0 where
  pub code : ℕ
  pub reason : String

-- sippy's call control events; `other` carries the name of any other class.
pub data CcEvent : Type 0 where
  try_event : TryData → CcEvent
  ring connect fail : Option Response → CcEvent
  disconnect update : CcEvent
  other : String → CcEvent

-- The keys of `global_config` that the library reads.
pub record GlobalConfig : Type 0 where
  pub sip_address : Option String
  pub sip_port : Option ℕ
  pub sip_uaname : Option String
  pub next_hop_expire : Option ℕ
  pub nh_addr : Option (String × ℕ)

-- The process-wide `SipConf`.
pub record SipConf : Type 0 where
  pub my_address : String
  pub my_port : ℕ
  pub my_uaname : String

pub data Level : Type 0 where
  debug info warning : Level

pub record LogLine : Type 0 where
  pub level : Level
  pub event : String
  pub extra : Dict Value

-- A request on the trunk, as far as the library reads it.
pub record Request : Type 0 where
  pub method : String
  pub call_id : String
  pub to_tag : Option String
  pub source : Option (String × ℕ)

-- The calls of sippy, each with what it depends on. A message is generated under the identity that
-- `SipConf` has at that moment.
pub data SippyCall : Type 0 where
  new_ua : ℕ → Option (String × ℕ) → SippyCall
  set_local : ℕ → String → String × ℕ → SippyCall
  recv_request : ℕ → Request → SipConf → SippyCall
  recv_event : ℕ → CcEvent → SipConf → SippyCall
  disconnect_ua : ℕ → SippyCall
  start_timer : ℕ → ℕ → SippyCall
  cancel_timer : ℕ → SippyCall

pub record World : Type 0 where
  pub now : ℕ
  pub metrics : MetricsRegistry
  pub tracer : TraceRecorder
  pub log : List LogLine
  pub sip_conf : SipConf
  pub sippy : List SippyCall
  pub next_ua : ℕ
  pub next_timer : ℕ
  -- The timers that are still to fire.
  pub armed : List ℕ

pub data PolicyAction : Type 0 where
  relay reject : PolicyAction

-- `PolicyDecision`: what the application hands the base.
pub record PolicyDecision : Type 0 where
  pub action : PolicyAction
  pub outbound_event : Option TryData
  pub next_hops : List NextHop
  pub error : Option AsError
  pub disposition : CallDisposition
  pub attributes : Dict Value
  pub reject_trace_summary : String
  pub reject_log_message : String
  pub reject_log_fields : Dict Value
  pub relay_log_message : String
  pub relay_log_fields : Dict Value

-- `BaseCallController.__init__`'s fields. UAs and timers are named by numbers.
pub record Controller : Type 0 where
  pub global_config : GlobalConfig
  pub next_hop : Option (String × ℕ)
  pub call_id : String
  pub trunk_peer : String
  pub ua_a : Option ℕ
  pub ua_o : Option ℕ
  pub trunk_request : Option Request
  pub policy : Option PolicyDecision
  pub pending_event : Option TryData
  pub failover_hops : List NextHop
  pub serving_hop : Option NextHop
  pub no_answer_timer : Option ℕ

-- What a controller is run with: the application's two hooks, which UAs sippy reports as connected
-- while the handler runs, and which log levels are enabled.
pub record Env : Type 0 where
  pub decide : TryData → PolicyDecision
  pub inbound_fields : Request → Dict Value
  pub connected : ℕ → Bool
  pub enabled : Level → Bool
