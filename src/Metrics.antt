-- ===== src/Metrics.antt =====
-- observability/metrics.py: the counter registry. Every method runs under the registry's lock, so
-- it is one atomic function of the state. `amount` is a natural number.
pub mod History
use as_platform.Base.{ℕ, ◌+◌, String, List, [], ◌∷◌, Option, none, some}
use as_platform.Base.Dict.{Dict, get_or, insert}

-- Final outcome of a call attempt.
pub data CallDisposition : Type 0 where
  completed failed rejected no_match abandoned : CallDisposition

-- Observed state of a trunk peer or next hop.
pub data PeerStatus : Type 0 where
  unknown reachable unreachable degraded : PeerStatus

unfoldable pub disposition_value : CallDisposition → String
disposition_value completed = "completed"
disposition_value failed = "failed"
disposition_value rejected = "rejected"
disposition_value no_match = "no_match"
disposition_value abandoned = "abandoned"

unfoldable pub status_value : PeerStatus → String
status_value unknown = "unknown"
status_value reachable = "reachable"
status_value unreachable = "unreachable"
status_value degraded = "degraded"

pub record MetricsSnapshot : Type 0 where
  pub calls_total : ℕ
  pub calls_by_disposition : Dict ℕ
  pub errors_by_code : Dict ℕ
  pub rule_hits : Dict ℕ
  pub peer_status : Dict String
  pub counters : Dict ℕ

pub record MetricsRegistry : Type 0 where
  pub calls_total : ℕ
  pub calls_by_disposition : Dict ℕ
  pub errors_by_code : Dict ℕ
  pub rule_hits : Dict ℕ
  pub peer_status : Dict PeerStatus
  pub counters : Dict ℕ

-- The registry's field defaults.
unfoldable pub new_registry : MetricsRegistry
new_registry = record {
  calls_total = 0;
  calls_by_disposition = [];
  errors_by_code = [];
  rule_hits = [];
  peer_status = [];
  counters = [];
}

-- The process-wide registry, made on first use: what is handed out, and what the process keeps.
unfoldable get_metrics_registry : Option MetricsRegistry → MetricsRegistry × Option MetricsRegistry
unfolding new_registry
get_metrics_registry none = (new_registry, some new_registry)
get_metrics_registry (some registry) = (registry, some registry)

-- `c[k] += n` on a `Counter`, which reads a missing key as 0.
unfoldable pub add_to : String → ℕ → Dict ℕ → Dict ℕ
add_to k n c = insert k (get_or k 0 c + n) c

unfoldable pub record_call_started : MetricsRegistry → MetricsRegistry
record_call_started r = record r { calls_total = r.calls_total + 1 }

unfoldable pub record_call_disposition : CallDisposition → MetricsRegistry → MetricsRegistry
unfolding add_to disposition_value
record_call_disposition d r = record r {
  calls_by_disposition = add_to (disposition_value d) 1 r.calls_by_disposition;
}

unfoldable pub record_error : String → MetricsRegistry → MetricsRegistry
unfolding add_to
record_error code r = record r { errors_by_code = add_to code 1 r.errors_by_code }

unfoldable pub record_rule_hit : String → MetricsRegistry → MetricsRegistry
unfolding add_to
record_rule_hit rule r = record r { rule_hits = add_to rule 1 r.rule_hits }

unfoldable pub record_counter : String → ℕ → MetricsRegistry → MetricsRegistry
unfolding add_to
record_counter name amount r = record r { counters = add_to name amount r.counters }

unfoldable pub set_peer_status : String → PeerStatus → MetricsRegistry → MetricsRegistry
set_peer_status peer status r = record r { peer_status = insert peer status r.peer_status }

-- The comprehension over `peer_status.items()`.
unfoldable pub status_values : Dict PeerStatus → Dict String
unfolding status_value
status_values [] = []
status_values ((name, status) ∷ d) = (name, status_value status) ∷ status_values d

unfoldable pub snapshot : MetricsRegistry → MetricsSnapshot
unfolding status_values
snapshot r = record {
  calls_total = r.calls_total;
  calls_by_disposition = r.calls_by_disposition;
  errors_by_code = r.errors_by_code;
  rule_hits = r.rule_hits;
  peer_status = status_values r.peer_status;
  counters = r.counters;
}
