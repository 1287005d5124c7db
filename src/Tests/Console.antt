-- ===== src/Tests/Console.antt =====
-- The theorems on the captured messages, the internal API and the log lines, applied.
use Prim.Native.Char.{Char, code}
use mathlib.Core.Logic.{◌≢◌}
use as_platform.Base.{
  arith, ℕ, zero, suc, ◌-◌, ◌≡◌, refl, Bool, true, false, String, List, [], ◌∷◌, none, some, map,
  drop, take, keep, length, contains, if◌then◌else◌, text, leb, ◌&&◌, str_dec,
}
use as_platform.Base.Dict.{Dict, keys}
use as_platform.Base.Text.{str}
use as_platform.Tracing.{TraceRecorder, TraceEvent, known_call_ids}
use as_platform.Messages.{new_messages, messages_for_any, call_id_of, peer_from_prefix}
use as_platform.Messages.Capture.{writes, history, messages_for_any-writes}
use as_platform.SipAdapter.{outbound_call_id}
use as_platform.Logging.{LogRecord}
use as_platform.InternalApi.{message_payload, get_trace_messages, poll_events}
use as_platform.InternalApi.Documents.{get_trace_messages-writes}
use as_platform.InternalApi.Connection.{Kept, times_sent, known_at, ws_events, ws_events-once}
use as_platform.InternalApi.Feed.{NotSent, unseen, poll_events-loses}

abbrev is_digit : Char → Bool
is_digit c = leb 48 (code c) && leb (code c) 57

abbrev invite_text : String
invite_text = "INVITE sip:2000@as SIP/2.0\r\ncall-id:  a@b \r\n\r\n"

abbrev wire : List (String × String)
wire =
    ("RECEIVED message from udp:[::1]:5060:", invite_text)
    ∷ ("SENDING message to 192.0.2.1:5061:", "no header")
    ∷ []

-- Runs of the two expressions.
call_id_run : call_id_of invite_text ≡ "a@b"
unfolding call_id_of str_dec
call_id_run = refl

peer_run : peer_from_prefix is_digit "RECEIVED message from udp:[::1]:5060:" ≡ "::1:5060"
unfolding peer_from_prefix str_dec
peer_run = refl

messages_for_any-writes_example :
    let kept = drop (length (history is_digit wire) - 1) (history is_digit wire) in
    ((writes is_digit wire (new_messages 1)).messages ≡ kept)
    × (messages_for_any ("a@b" ∷ []) (writes is_digit wire (new_messages 1))
        ≡ keep (λ m. contains ("a@b" ∷ []) m.call_id) kept)
messages_for_any-writes_example = messages_for_any-writes is_digit ("a@b" ∷ []) wire 1

get_trace_messages-writes_example :
    let legs = "a@b" ∷ outbound_call_id "a@b" ∷ [] in
    let kept = drop (length (history is_digit wire) - 5) (history is_digit wire) in
    get_trace_messages (some (writes is_digit wire (new_messages 5))) "a@b" ≡ record {
      call_id = "a@b";
      outbound_call_id = outbound_call_id "a@b";
      messages = map message_payload (keep (λ m. contains legs m.call_id) kept);
    }
get_trace_messages-writes_example = get_trace_messages-writes is_digit wire 5 "a@b"

-- 51 calls, named by numbers, the highest the oldest.
abbrev calls_from : ℕ → Dict (List TraceEvent)
calls_from zero = []
calls_from (suc n) = (str (suc n), []) ∷ calls_from n

abbrev crowded : TraceRecorder
crowded = record { max_calls = 200; traces = calls_from 51 }

crowded-unseen : unseen [] (known_call_ids crowded) ≢ []
unfolding contains known_call_ids keys
crowded-unseen e = cc

crowded-known : contains (known_call_ids crowded) "51" ≡ true
unfolding contains known_call_ids keys str_dec str
crowded-known = refl

crowded-beyond : contains (take 50 (known_call_ids crowded)) "51" ≡ false
unfolding contains known_call_ids keys str_dec str
crowded-beyond = refl

poll_events-loses_example :
    let first = poll_events str [] crowded crowded in
    NotSent str "51" first.0 × NotSent str "51" (poll_events str first.1 crowded crowded).0
poll_events-loses_example =
    poll_events-loses str "51" [] crowded crowded crowded crowded crowded-unseen crowded-known
      crowded-beyond

abbrev line : LogRecord
line = record {
  time = "2026-01-01T00:00:00+0000";
  level_name = "info";
  module_name = "main";
  message = "call finished";
  attributes =
      ("call_id", text "c1") ∷ ("msg", text "call finished") ∷ ("disposition", text "failed") ∷ [];
  exception = none;
}

-- The recorder at the accept, and at both reads of three polls: a second call comes up between the two
-- reads of the first poll, so the second poll is the first that knows it.
abbrev one_call : TraceRecorder
one_call = record { max_calls = 200; traces = ("1", []) ∷ [] }

abbrev two_calls : TraceRecorder
two_calls = record { max_calls = 200; traces = ("1", []) ∷ ("2", []) ∷ [] }

abbrev three_polls : List (TraceRecorder × TraceRecorder)
three_polls = (one_call, two_calls) ∷ (two_calls, two_calls) ∷ (two_calls, two_calls) ∷ []

three_polls-Kept : Kept "2" (contains (known_call_ids one_call) "2") three_polls
unfolding contains known_call_ids keys str_dec
three_polls-Kept = (
  omega arith,
  (λ h. cc),
  (λ h. cc),
  (omega arith, (λ h. refl), (λ h. refl), (omega arith, (λ h. refl), (λ h. refl), tt)),
)

ws_events-once_example : times_sent "2" (ws_events str one_call three_polls) ≡ (
    if contains (known_call_ids one_call) "2" then 0 else if known_at "2" three_polls then 1 else 0)
ws_events-once_example = ws_events-once str "2" one_call three_polls three_polls-Kept
