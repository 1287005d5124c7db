-- ===== src/Tracing.antt =====
-- observability/tracing.py: the per-Call-ID trace recorder. Its methods run under a lock, so each is
-- one atomic function of the state. The wall clock is an argument, a number; limits are natural
-- numbers.
pub mod Bounds
pub mod Recency
use as_platform.Base.{
  ℕ, String, List, [], ◌∷◌, ◌++◌, Option, none, some, reverse, take, pop_front, Value,
}
use as_platform.Base.Dict.{Dict, get_or, insert, move_to_end, keys}

pub record TraceEvent : Type 0 where
  pub timestamp : ℕ
  pub call_id : String
  pub direction : String
  pub method : String
  pub summary : String
  pub peer : String
  pub rule_id : Option Value
  pub attributes : Dict Value

pub record CallTrace : Type 0 where
  pub call_id : String
  pub events : List TraceEvent

pub record TraceRecorder : Type 0 where
  pub max_calls : ℕ
  pub traces : Dict (List TraceEvent)

abbrev default_max_traced_calls : ℕ
default_max_traced_calls = 200

unfoldable pub new_recorder : ℕ → TraceRecorder
new_recorder max_calls = record { max_calls = max_calls; traces = [] }

-- The process-wide recorder, made on first use for 200 calls: what is handed out and what is kept.
unfoldable get_trace_recorder : Option TraceRecorder → TraceRecorder × Option TraceRecorder
unfolding new_recorder
get_trace_recorder none = (new_recorder 200, some (new_recorder 200))
get_trace_recorder (some recorder) = (recorder, some recorder)

-- `setdefault(call_id, []).append(event)`
unfoldable pub append_event : TraceEvent → Dict (List TraceEvent) → Dict (List TraceEvent)
unfolding get_or insert
append_event e traces = insert e.call_id (get_or e.call_id [] traces ++ e ∷ []) traces

-- `record`, on the event that it builds from its arguments and the clock.
unfoldable pub record_event : TraceEvent → TraceRecorder → TraceRecorder
unfolding append_event move_to_end pop_front
record_event e r = record r {
  traces = pop_front r.max_calls (move_to_end e.call_id (append_event e r.traces));
}

unfoldable pub trace_for : String → TraceRecorder → CallTrace
unfolding get_or
trace_for call_id r = record { call_id = call_id; events = get_or call_id [] r.traces }

abbrev call_trace : String × List TraceEvent → CallTrace
call_trace (call_id, events) = record { call_id = call_id; events = events }

unfoldable pub traces_of : Dict (List TraceEvent) → List CallTrace
traces_of [] = []
traces_of (item ∷ d) = call_trace item ∷ traces_of d

unfoldable pub recent : ℕ → TraceRecorder → List CallTrace
unfolding traces_of
recent limit r = traces_of (take limit (reverse r.traces))

unfoldable pub known_call_ids : TraceRecorder → List String
unfolding keys
known_call_ids r = reverse (keys r.traces)

unfoldable pub clear : TraceRecorder → TraceRecorder
clear r = record r { traces = [] }
