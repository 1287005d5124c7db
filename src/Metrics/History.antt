-- ===== src/Metrics/History.antt =====
-- The registry against the history of the calls of its methods.
use as_platform.Base.{
  ℕ, ◌+◌, ◌≡◌, refl, String, List, [], ◌∷◌, Option, none, some, arith, ◌==◌, if◌then◌else◌,
}
use as_platform.Base.Dict.{Dict, lookup, get_or}
use as_platform.Base.Dict.Laws.{lookup-insert}
use as_platform.Metrics.{
  CallDisposition, PeerStatus, MetricsRegistry, new_registry, disposition_value, status_value,
  status_values, add_to, record_call_started, record_call_disposition, record_error,
  record_rule_hit, record_counter, set_peer_status, snapshot,
}

-- One call of a method that writes.
pub data Write : Type 0 where
  call_started : Write
  call_disposition : CallDisposition → Write
  error rule_hit : String → Write
  counter : String → ℕ → Write
  peer_status : String → PeerStatus → Write

unfoldable pub apply : Write → MetricsRegistry → MetricsRegistry
unfolding record_call_started record_call_disposition record_error record_rule_hit record_counter
    set_peer_status
apply call_started r = record_call_started r
apply (call_disposition d) r = record_call_disposition d r
apply (error c) r = record_error c r
apply (rule_hit i) r = record_rule_hit i r
apply (counter n a) r = record_counter n a r
apply (peer_status p s) r = set_peer_status p s r

unfoldable pub run : List Write → MetricsRegistry → MetricsRegistry
run [] r = r
run (w ∷ ws) r = run ws (apply w r)

-- What one write adds to each count.
abbrev pub starts : Write → ℕ
starts call_started = 1
starts _ = 0

abbrev pub dispositions : String → Write → ℕ
dispositions k (call_disposition d) = if k == disposition_value d then 1 else 0
dispositions k _ = 0

abbrev pub errors : String → Write → ℕ
errors k (error c) = if k == c then 1 else 0
errors k _ = 0

abbrev pub rule_hits : String → Write → ℕ
rule_hits k (rule_hit i) = if k == i then 1 else 0
rule_hits k _ = 0

abbrev pub amounts : String → Write → ℕ
amounts k (counter n a) = if k == n then a else 0
amounts k _ = 0

-- The sum over a history, and the last status that it sets for a peer.
unfoldable pub tally : (Write → ℕ) → List Write → ℕ
tally f [] = 0
tally f (w ∷ ws) = f w + tally f ws

abbrev newest : String → Write → Option PeerStatus → Option PeerStatus
newest k (peer_status p s) before = if k == p then some s else before
newest k _ before = before

unfoldable pub last_status : String → List Write → Option PeerStatus → Option PeerStatus
last_status k [] before = before
last_status k (w ∷ ws) before = last_status k ws (newest k w before)

get_or-add_to :
    (j k : String) (n : ℕ) (c : Dict ℕ)
    → get_or j 0 (add_to k n c) ≡ get_or j 0 c + (if j == k then n else 0)
unfolding get_or add_to
get_or-add_to j k n c = ground (arith, lookup-insert j k (get_or k 0 c + n) c)

-- One step of each count.
step_counts :
    (k : String) (w : Write) (r : MetricsRegistry)
    → ((apply w r).calls_total ≡ r.calls_total + starts w)
      × (get_or k 0 (apply w r).calls_by_disposition
          ≡ get_or k 0 r.calls_by_disposition + dispositions k w)
      × (get_or k 0 (apply w r).errors_by_code ≡ get_or k 0 r.errors_by_code + errors k w)
      × (get_or k 0 (apply w r).rule_hits ≡ get_or k 0 r.rule_hits + rule_hits k w)
      × (get_or k 0 (apply w r).counters ≡ get_or k 0 r.counters + amounts k w)
      × (lookup k (apply w r).peer_status ≡ newest k w (lookup k r.peer_status))
unfolding apply record_call_disposition record_error record_rule_hit record_counter set_peer_status
    record_call_started
step_counts k call_started r = ground arith
step_counts k (call_disposition d) r =
    ground (arith, get_or-add_to k (disposition_value d) 1 r.calls_by_disposition)
step_counts k (error c) r = ground (arith, get_or-add_to k c 1 r.errors_by_code)
step_counts k (rule_hit i) r = ground (arith, get_or-add_to k i 1 r.rule_hits)
step_counts k (counter n a) r = ground (arith, get_or-add_to k n a r.counters)
step_counts k (peer_status p s) r = ground (arith, lookup-insert k p s r.peer_status)

run_counts_from :
    (k : String) (ws : List Write) (r : MetricsRegistry)
    → ((run ws r).calls_total ≡ r.calls_total + tally starts ws)
      × (get_or k 0 (run ws r).calls_by_disposition
          ≡ get_or k 0 r.calls_by_disposition + tally (dispositions k) ws)
      × (get_or k 0 (run ws r).errors_by_code ≡ get_or k 0 r.errors_by_code + tally (errors k) ws)
      × (get_or k 0 (run ws r).rule_hits ≡ get_or k 0 r.rule_hits + tally (rule_hits k) ws)
      × (get_or k 0 (run ws r).counters ≡ get_or k 0 r.counters + tally (amounts k) ws)
      × (lookup k (run ws r).peer_status ≡ last_status k ws (lookup k r.peer_status))
unfolding run tally last_status
run_counts_from k [] r = ground arith
run_counts_from k (w ∷ ws) r = ground (arith, step_counts k w r, run_counts_from k ws (apply w r))

lookup-status_values :
    (k : String) (d : Dict PeerStatus)
    → lookup k (status_values d)
      ≡ (elim (lookup k d) [ none ↦ none | some s ↦ some (status_value s) ])
unfolding lookup status_values
lookup-status_values k [] = refl
lookup-status_values k (e ∷ d) = ground (arith, lookup-status_values k d)

-- After any history of writes to a new registry, a snapshot reports for every key: as the total,
-- the number of call starts; under each disposition value, error code and rule id, the number of
-- times that it was recorded; under each counter name, the sum of the recorded amounts; and for
-- each peer the value of the last status that was set, if one was.
pub snapshot-run :
    (k : String) (ws : List Write)
    → let s = snapshot (run ws new_registry) in
      (s.calls_total ≡ tally starts ws)
      × (get_or k 0 s.calls_by_disposition ≡ tally (dispositions k) ws)
      × (get_or k 0 s.errors_by_code ≡ tally (errors k) ws)
      × (get_or k 0 s.rule_hits ≡ tally (rule_hits k) ws)
      × (get_or k 0 s.counters ≡ tally (amounts k) ws)
      × (lookup k s.peer_status
          ≡ (elim (last_status k ws none) [ none ↦ none | some v ↦ some (status_value v) ]))
unfolding snapshot new_registry get_or lookup
snapshot-run k ws = ground (
  arith,
  run_counts_from k ws new_registry,
  lookup-status_values k (run ws new_registry).peer_status,
)
