-- ===== src/InternalApi.antt =====
-- internal_api.py: the documents of the internal API and the event feed of the console. HTTP is not
-- part of the repository: a route is a function to what it answers with. How a time is written is a
-- parameter; seconds are counted in milliseconds, to which the code rounds.
pub mod Feed
pub mod Documents
pub mod Connection
pub mod Server
use as_platform.Base.{
  ℕ, Bool, true, false, not, String, List, [], ◌∷◌, Option, none, some, map, keep, contains,
  if◌then◌else◌, Value, flag, number, text,
}
use as_platform.Base.Dict.{Dict, update}
use as_platform.Metrics.{MetricsRegistry, MetricsSnapshot, snapshot}
use as_platform.Tracing.{TraceEvent, CallTrace, TraceRecorder, trace_for, recent, known_call_ids}
use as_platform.Messages.{SipMessageRecorder, RecordedSipMessage, messages_for_any}
use as_platform.SipAdapter.{outbound_call_id}

-- `PayloadProvider`, what the application supplies: `R` is its resource document.
pub record PayloadProvider (R : Type 0) : Type 0 where
  pub instance_name : String
  pub resource_missing : String
  pub ready : Bool
  pub health_extra : Dict Value
  pub resource : Option R

unfoldable health_payload : String → ℕ → Bool → String → Option (Dict Value) → Dict Value
health_payload version uptime ready instance_name extra =
    update
      (("status", text (if ready then "ok" else "degraded"))
        ∷ ("instance", text instance_name)
        ∷ ("version", text version)
        ∷ ("uptime_seconds", number uptime)
        ∷ ("rule_set_loaded", flag ready)
        ∷ [])
      (elim extra [ none ↦ [] | some fields ↦ fields ])

pub record MetricsDocument : Type 0 where
  pub calls_total : ℕ
  pub calls_by_disposition : Dict ℕ
  pub errors_by_code : Dict ℕ
  pub rule_hits : Dict ℕ
  pub peer_status : Dict String
  pub counters : Dict ℕ

unfoldable metrics_payload : MetricsRegistry → MetricsDocument
metrics_payload registry =
    let s = snapshot registry in
    record {
      calls_total = s.calls_total;
      calls_by_disposition = s.calls_by_disposition;
      errors_by_code = s.errors_by_code;
      rule_hits = s.rule_hits;
      peer_status = s.peer_status;
      counters = s.counters;
    }

pub record EventDocument : Type 0 where
  pub timestamp : String
  pub call_id : String
  pub direction : String
  pub method : String
  pub peer : String
  pub summary : String
  pub rule_id : Option Value
  pub attributes : Dict Value

pub record TraceDocument : Type 0 where
  pub call_id : String
  pub events : List EventDocument

pub record MessageDocument : Type 0 where
  pub direction : String
  pub peer : String
  pub call_id : String
  pub text : String

pub record MessagesDocument : Type 0 where
  pub call_id : String
  pub outbound_call_id : String
  pub messages : List MessageDocument

-- What a route answers with: its document, or a 503 with the text of the error.
pub data Answer (R : Type 0) : Type 0 where
  document : R → Answer R
  unavailable : String → Answer R

unfoldable get_resource : {R : Type 0} → PayloadProvider R → Answer R
get_resource provider = elim provider.resource [
  | none ↦ unavailable provider.resource_missing
  | some r ↦ document r
]

unfoldable pub health : {R : Type 0} → String → ℕ → PayloadProvider R → Dict Value
unfolding health_payload
health version uptime provider =
    health_payload version uptime provider.ready provider.instance_name (some provider.health_extra)

unfoldable pub message_payload : RecordedSipMessage → MessageDocument
message_payload m = record {
  direction = m.direction;
  peer = m.peer;
  call_id = m.call_id;
  text = m.text;
}

unfoldable messages_payload : String → SipMessageRecorder → MessagesDocument
unfolding message_payload
messages_payload trunk_call_id r = record {
  call_id = trunk_call_id;
  outbound_call_id = outbound_call_id trunk_call_id;
  messages =
      map message_payload
        (messages_for_any (trunk_call_id ∷ outbound_call_id trunk_call_id ∷ []) r);
}

unfoldable pub get_trace_messages : Option SipMessageRecorder → String → MessagesDocument
unfolding messages_payload
get_trace_messages none call_id = record {
  call_id = call_id;
  outbound_call_id = outbound_call_id call_id;
  messages = [];
}
get_trace_messages (some r) call_id = messages_payload call_id r

module _ (isoformat : ℕ → String) where
  unfoldable event_payload : TraceEvent → EventDocument
  event_payload e = record {
    timestamp = isoformat e.timestamp;
    call_id = e.call_id;
    direction = e.direction;
    method = e.method;
    peer = e.peer;
    summary = e.summary;
    rule_id = e.rule_id;
    attributes = e.attributes;
  }

  unfoldable pub trace_payload : CallTrace → TraceDocument
  unfolding event_payload
  trace_payload t = record { call_id = t.call_id; events = map event_payload t.events }

  unfoldable traces_payload : TraceRecorder → ℕ → List TraceDocument
  unfolding trace_payload
  traces_payload recorder limit = map trace_payload (recent limit recorder)

  unfoldable get_trace : TraceRecorder → String → TraceDocument
  unfolding trace_payload
  get_trace recorder call_id = trace_payload (trace_for call_id recorder)

  -- One round of `/ws/events`: what is sent, if anything is, and the calls that count as seen. Sets of
  -- Call-IDs are lists here, of which only the members are used. The round reads the recorder twice,
  -- once for the Call-IDs and once for the calls to send: it may have recorded events in between.
  unfoldable pub feed_batch : List String → TraceRecorder → List TraceDocument
  unfolding trace_payload
  feed_batch new_ids recorder =
      map trace_payload (keep (λ t. contains new_ids t.call_id) (recent 50 recorder))

  unfoldable pub send_new :
      List String
      → List String
      → List String
      → TraceRecorder
      → Option (List TraceDocument) × List String
  unfolding feed_batch
  send_new [] current seen recorder = (none, seen)
  send_new (id ∷ ids) current seen recorder = (some (feed_batch (id ∷ ids) recorder), current)

  unfoldable pub poll_events :
      List String → TraceRecorder → TraceRecorder → Option (List TraceDocument) × List String
  unfolding send_new known_call_ids
  poll_events seen first second =
      let current = known_call_ids first in
      send_new (keep (λ id. not (contains seen id)) current) current seen second
