-- ===== src/InternalApi/Documents.antt =====
-- internal_api.py: what the health document and the messages document of a call contain.
use Prim.Native.Char.{Char}
use as_platform.Base.{
  ℕ, ◌-◌, ◌≡◌, Bool, String, List, [], ◌∷◌, none, some, map, drop, keep, length, contains,
  if◌then◌else◌, ◌==◌, text, number, flag,
}
use as_platform.Base.Dict.{lookup, NodupKeys}
use as_platform.Base.Dict.Laws.{lookup-update}
use as_platform.Messages.{new_messages}
use as_platform.Messages.Capture.{writes, history, messages_for_any-writes}
use as_platform.SipAdapter.{outbound_call_id}
use as_platform.InternalApi.{PayloadProvider, health, message_payload, get_trace_messages}

-- The health document has the application's value under every key that the application adds, the
-- shared keys among them, and under the others the five shared values, of which the readiness is
-- reported twice.
lookup-health :
    {R : Type 0} (k version : String) (uptime : ℕ) (p : PayloadProvider R)
    → NodupKeys p.health_extra
    → lookup k (health version uptime p) ≡ (elim (lookup k p.health_extra) [
      | some v ↦ some v
      | none ↦
          if k == "status"
          then some (text (if p.ready then "ok" else "degraded"))
          else if k == "instance"
          then some (text p.instance_name)
          else if k == "version"
          then some (text version)
          else if k == "uptime_seconds"
          then some (number uptime)
          else if k == "rule_set_loaded"
          then some (flag p.ready)
          else none
    ])
unfolding health lookup
lookup-health k version uptime p h = lookup-update k _ p.health_extra h

-- After any history of messages, the messages document of a call has its two Call-IDs and, of the
-- last messages that the recorder keeps, exactly those of either leg, in the order in which they were
-- written.
pub get_trace_messages-writes :
    (is_digit : Char → Bool) (ws : List (String × String)) (n : ℕ) (call_id : String)
    → let legs = call_id ∷ outbound_call_id call_id ∷ [] in
      let kept = drop (length (history is_digit ws) - n) (history is_digit ws) in
      get_trace_messages (some (writes is_digit ws (new_messages n))) call_id ≡ record {
        call_id = call_id;
        outbound_call_id = outbound_call_id call_id;
        messages = map message_payload (keep (λ m. contains legs m.call_id) kept);
      }
unfolding get_trace_messages
get_trace_messages-writes is_digit ws n call_id = λ i. record {
  call_id = call_id;
  outbound_call_id = outbound_call_id call_id;
  messages =
      map message_payload
        ((messages_for_any-writes is_digit (call_id ∷ outbound_call_id call_id ∷ []) ws n).1 i);
}
