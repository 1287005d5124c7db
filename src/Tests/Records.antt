-- ===== src/Tests/Records.antt =====
-- The theorems on the registries, the store, the traces, the errors and the adapter, applied.
use mathlib.Core.Bool.{false≢true}
use text.Mathlib.TextEquality.{eq_iff}
use as_platform.Base.{
  ℕ, ◌≤◌, ◌≡◌, refl, List, [], ◌∷◌, ◌++◌, none, some, arith, str_dec, length, drop, take, ◌-◌,
  startswith, true, false,
}
use as_platform.Base.Dict.{Dict, lookup, get_or}
use as_platform.Errors.{AsError, as_error, error_code, peer_not_allowed, as_log_fields}
use as_platform.Errors.Fields.{lookup-as_log_fields}
use as_platform.Metrics.{CallDisposition, PeerStatus, snapshot, new_registry, status_value}
use as_platform.Metrics.History.{
  Write, run, tally, starts, dispositions, errors, rule_hits, amounts, last_status, snapshot-run,
}
use as_platform.StateStore.{family, trim}
use as_platform.StateStore.Trim.{others, trim-keeps_newest}
use as_platform.Tracing.{
  TraceRecorder, TraceEvent, record_event, trace_for, known_call_ids, new_recorder,
}
use as_platform.Tracing.Bounds.{IsValid, trace_for-record_event}
use as_platform.Tracing.Recency.{touch, by_last_event, record_events, known_call_ids-record_events}
use as_platform.SipAdapter.{
  is_delimiter, TransactionManager, cancel_transaction_timers, build_request_uri,
  extract_called_number, number,
}
use as_platform.SipAdapter.Drained.{cancel_transaction_timers-Drained}
use as_platform.SipAdapter.Timers.{live_manager}
use as_platform.SipAdapter.Uris.{is_user, extract_called_number-build_request_uri}
use as_platform.Tests.{core_a, event_of}

abbrev writes : List Write
writes =
    Write.call_started
    ∷ Write.call_disposition CallDisposition.failed
    ∷ Write.call_disposition CallDisposition.failed
    ∷ Write.peer_status "a" PeerStatus.reachable
    ∷ Write.peer_status "a" PeerStatus.unreachable
    ∷ []

snapshot-run_example :
    let s = snapshot (run writes new_registry) in
    (s.calls_total ≡ tally starts writes)
    × (get_or "failed" 0 s.calls_by_disposition ≡ tally (dispositions "failed") writes)
    × (get_or "failed" 0 s.errors_by_code ≡ tally (errors "failed") writes)
    × (get_or "failed" 0 s.rule_hits ≡ tally (rule_hits "failed") writes)
    × (get_or "failed" 0 s.counters ≡ tally (amounts "failed") writes)
    × (lookup "failed" s.peer_status ≡ (elim (last_status "failed" writes none) [
      | none ↦ none
      | some v ↦ some (status_value v)
    ]))
snapshot-run_example = snapshot-run "failed" writes

-- Five keys, three of them of one family.
abbrev stored : Dict ℕ
stored = ("w:1", 1) ∷ ("r:1", 2) ∷ ("w:2", 3) ∷ ("w:3", 4) ∷ ("r:2", 5) ∷ []

trim-keeps_newest_example :
    (family "w:" (trim "w:" 2 stored) ≡ drop (length (family "w:" stored) - 2) (family "w:" stored))
    × (length (family "w:" (trim "w:" 2 stored)) ≤ 2)
    × (others "w:" (trim "w:" 2 stored) ≡ others "w:" stored)
trim-keeps_newest_example = trim-keeps_newest "w:" 2 stored

trim_run : trim "w:" 2 stored ≡ ("r:1", 2) ∷ ("w:2", 3) ∷ ("w:3", 4) ∷ ("r:2", 5) ∷ []
unfolding trim startswith str_dec
trim_run = refl

abbrev history : List TraceEvent
history = event_of "a" 1 ∷ event_of "b" 2 ∷ event_of "a" 3 ∷ event_of "c" 4 ∷ []

known_call_ids-record_events_example :
    known_call_ids (record_events history (new_recorder 2)) ≡ take 2 (by_last_event history [])
known_call_ids-record_events_example = known_call_ids-record_events 2 history

retained : take 2 (by_last_event history []) ≡ "c" ∷ "a" ∷ []
unfolding by_last_event str_dec touch
retained = refl

abbrev one_call : TraceRecorder
one_call = record { max_calls = 2; traces = ("a", event_of "a" 1 ∷ []) ∷ [] }

one_call-IsValid : IsValid one_call
unfolding lookup
one_call-IsValid = record { distinct = (refl, tt); bounded = omega arith }

trace_for-record_event_example :
    (trace_for "a" (record_event (event_of "a" 2) one_call)).events
    ≡ (trace_for "a" one_call).events ++ event_of "a" 2 ∷ []
trace_for-record_event_example =
    trace_for-record_event (event_of "a" 2) one_call one_call-IsValid (omega arith)

abbrev refused : AsError
refused = as_error (error_code peer_not_allowed) none none (("source", "192.0.2.1") ∷ [])

lookup-as_log_fields_example : lookup "source" (as_log_fields refused) ≡ some "192.0.2.1"
unfolding lookup as_error str_dec
lookup-as_log_fields_example = lookup-as_log_fields "source" refused (refl, tt)

extract_called_number-build_request_uri_example :
    extract_called_number (λ s. s) (build_request_uri (λ _. some 4) "+8613800100000" core_a)
    ≡ number "+8613800100000"
unfolding is_user is_delimiter
extract_called_number-build_request_uri_example =
    extract_called_number-build_request_uri (λ s. s) (λ _. some 4) "+8613800100000" core_a refl
      (λ p. false≢true ((eq_iff "+8613800100000" "").1 p))

-- One timer is pending, and one has fired.
abbrev manager : TransactionManager
manager = record {
  tclient = some (
      (
        "t1",
        ("teA", some (record { ident = 1; pending = true }))
            ∷ ("teB", some (record { ident = 2; pending = false }))
            ∷ [],
      )
      ∷ []);
  tserver = none;
}

cancel_transaction_timers-Drained_example :
    (after : TransactionManager) × (cancel_transaction_timers manager
      ≡ (length (live_manager manager), live_manager manager, after))
    × (live_manager after ≡ [])
    × (cancel_transaction_timers after ≡ (0, [], after))
cancel_transaction_timers-Drained_example = cancel_transaction_timers-Drained manager
