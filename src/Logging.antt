-- ===== src/Logging.antt =====
-- observability/logging.py, `StructuredFormatter`: from a log record to the fields of its line. What
-- Python's `logging` puts on every record is a parameter, as is the set of names that it reserves on
-- the class; the fields of `log_event` are the attributes that the record carries besides.
pub mod Fields
pub mod Configure
use as_platform.Base.{
  ℕ, Bool, true, false, ◌||◌, String, List, [], ◌∷◌, ◌++◌, Option, none, some, if◌then◌else◌,
  contains, startswith, Value, null, text,
}
use as_platform.Base.Dict.{Dict, has, insert, get_or}

-- A record of `logging`: `attributes` is its `__dict__`.
pub record LogRecord : Type 0 where
  pub time : String
  pub level_name : String
  pub module_name : String
  pub message : String
  pub attributes : Dict Value
  pub exception : Option String

-- The names that the loop leaves out.
abbrev pub reserved_names : List String
reserved_names =
    "args" ∷ "msg" ∷ "levelno" ∷ "levelname" ∷ "pathname" ∷ "filename" ∷ "module" ∷ "name"
    ∷ "message" ∷ "asctime" ∷ "exc_info" ∷ "exc_text" ∷ "stack_info" ∷ "lineno" ∷ "funcName"
    ∷ "created" ∷ "msecs" ∷ "relativeCreated" ∷ "thread" ∷ "threadName" ∷ "processName" ∷ "process"
    ∷ "taskName" ∷ []

-- The names of the fields of every line.
abbrev pub log_fields : List String
log_fields = "timestamp" ∷ "level" ∷ "module" ∷ "call_id" ∷ "direction" ∷ "peer" ∷ "event" ∷ []

-- The seven fields of every line.
unfoldable pub fixed_fields : LogRecord → Dict Value
unfolding get_or
fixed_fields r =
    ("timestamp", text r.time)
    ∷ ("level", text r.level_name)
    ∷ ("module", text r.module_name)
    ∷ ("call_id", get_or "call_id" (text "-") r.attributes)
    ∷ ("direction", get_or "direction" (text "-") r.attributes)
    ∷ ("peer", get_or "peer" (text "-") r.attributes)
    ∷ ("event", text r.message)
    ∷ []

-- `if value is None: continue`
unfoldable pub put : String → Value → Dict Value → Dict Value
unfolding insert
put key null payload = payload
put key value payload = insert key value payload

unfoldable pub add_exception : Option String → Dict Value → Dict Value
unfolding insert
add_exception none payload = payload
add_exception (some trace) payload = insert "exception" (text trace) payload

module _ (class_names : List String) where
  unfoldable pub is_hidden : String → Bool
  unfolding contains startswith
  is_hidden key = startswith key "_" || (contains class_names key || contains reserved_names key)

  -- `for key, value in record.__dict__.items()`
  unfoldable pub add_fields : Dict Value → Dict Value → Dict Value
  unfolding has is_hidden put
  add_fields [] payload = payload
  add_fields ((key, value) ∷ rest) payload =
      if has key payload || is_hidden key
      then add_fields rest payload
      else add_fields rest (put key value payload)

  -- `format`, before `json.dumps`.
  unfoldable pub format : LogRecord → Dict Value
  unfolding fixed_fields add_fields add_exception
  format r = add_exception r.exception (add_fields r.attributes (fixed_fields r))
