-- ===== src/Tests.antt =====
-- Concrete calls, stores and traces, on which the theorems are applied.
mod Calls
mod Process
mod Records
mod Backends
mod Redis
mod Shell
mod Console
mod Routes
mod Server
use as_platform.Base.{ℕ, Bool, true, false, String, List, [], ◌∷◌, Option, none, some, Value, text}
use as_platform.Errors.{AsError, as_error, error_code, peer_unreachable}
use as_platform.Metrics.{MetricsRegistry, failed}
use as_platform.Tracing.{TraceRecorder, TraceEvent}
use as_platform.World.{
  State, Env, NextHop, TryData, PolicyDecision, relay, reject, Controller, GlobalConfig, SipConf,
  World, Request,
}

abbrev pub core_a : NextHop
core_a = record {
  name = "core-a";
  address = "192.0.2.10";
  port = 5060;
  transport = "udp";
  priority = 1;
  description = "";
}

abbrev pub core_b : NextHop
core_b = record core_a { name = "core-b"; address = "192.0.2.20" }

abbrev pub config : GlobalConfig
config = record {
  sip_address = some "198.51.100.1";
  sip_port = some 5070;
  sip_uaname = some "as";
  next_hop_expire = some 2000;
  nh_addr = some ("192.0.2.10", 5060);
}

abbrev pub invite : TryData
invite = record { call_id = "call-1"; calling = "1000"; called = "2000" }

abbrev pub error : AsError
error = record {
  code = error_code peer_unreachable;
  detail = "no route";
  call_id = none;
  context = [];
}

abbrev pub accepting : PolicyDecision
accepting = record {
  action = relay;
  outbound_event = some invite;
  next_hops = core_a ∷ core_b ∷ [];
  error = none;
  disposition = failed;
  attributes = ("next_hop", text "core-a") ∷ [];
  reject_trace_summary = "";
  reject_log_message = "";
  reject_log_fields = [];
  relay_log_message = "invite relayed";
  relay_log_fields = ("called_number", text "2000") ∷ [];
}

abbrev refusing : PolicyDecision
refusing = record accepting {
  action = reject;
  outbound_event = none;
  next_hops = [];
  error = some error;
  reject_trace_summary = "refused";
  reject_log_message = "call refused";
}

-- An application that relays every call, while no UA is connected, with all logging on.
abbrev pub relaying : Env
relaying = record {
  decide = λ _. accepting;
  inbound_fields = λ _. [];
  connected = λ _. false;
  enabled = λ _. true;
}

abbrev pub rejecting : Env
rejecting = record relaying { decide = λ _. refusing }

abbrev no_metrics : MetricsRegistry
no_metrics = record {
  calls_total = 0;
  calls_by_disposition = [];
  errors_by_code = [];
  rule_hits = [];
  peer_status = [];
  counters = [];
}

abbrev no_traces : TraceRecorder
no_traces = record { max_calls = 2; traces = [] }

abbrev pub idle_world : World
idle_world = record {
  now = 7;
  metrics = no_metrics;
  tracer = no_traces;
  log = [];
  sip_conf = record { my_address = "203.0.113.1"; my_port = 5060; my_uaname = "stack" };
  sippy = [];
  next_ua = 0;
  next_timer = 0;
  armed = [];
}

abbrev pub fresh_controller : Controller
fresh_controller = record {
  global_config = config;
  next_hop = none;
  call_id = "-";
  trunk_peer = "-";
  ua_a = none;
  ua_o = none;
  trunk_request = none;
  policy = none;
  pending_event = none;
  failover_hops = [];
  serving_hop = none;
  no_answer_timer = none;
}

abbrev pub request : Request
request = record {
  method = "INVITE";
  call_id = "call-1";
  to_tag = none;
  source = some ("203.0.113.9", 5060);
}

-- The answering leg of a new call is there.
abbrev pub answering : State
answering = record {
  world = record idle_world { next_ua = 1 };
  ctl = record fresh_controller { ua_a = some 0; call_id = "call-1" };
}

-- The first hop is being tried, and one hop is left.
abbrev pub trying : State
trying = record {
  world = record idle_world { next_ua = 2; next_timer = 1; armed = 0 ∷ [] };
  ctl = record fresh_controller {
    ua_a = some 0;
    ua_o = some 1;
    call_id = "call-1";
    next_hop = some ("192.0.2.10", 5060);
    policy = some accepting;
    pending_event = some invite;
    failover_hops = core_b ∷ [];
    serving_hop = some core_a;
    no_answer_timer = some 0;
  };
}

-- The only hop is being tried.
abbrev pub last_hop : State
last_hop = record trying { ctl = record trying.ctl { failover_hops = [] } }

abbrev pub event_of : String → ℕ → TraceEvent
event_of call_id n = record {
  timestamp = n;
  call_id = call_id;
  direction = "in";
  method = "INVITE";
  summary = "";
  peer = "";
  rule_id = none;
  attributes = [];
}
