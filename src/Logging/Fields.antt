-- ===== src/Logging/Fields.antt =====
-- Which fields a log line has.
use as_platform.Base.{
  ◌≡◌, refl, Bool, true, false, ◌||◌, String, List, Option, none, some, if◌then◌else◌, ◌==◌, Value,
  null, text, startswith, contains,
}
use as_platform.Base.Dict.{Dict, keys, lookup}
use as_platform.Logging.{reserved_names, log_fields, LogRecord, fixed_fields}

-- A value that is not `None`.
abbrev pub shown : Option Value → Option Value
shown none = none
shown (some null) = none
shown (some v) = some v

-- The attribute, or a dash where the record has none.
abbrev pub or_dash : Option Value → Value
or_dash none = text "-"
or_dash (some v) = v

-- The seven fields that every line has, and their values.
abbrev pub fixed_field : String → LogRecord → Option Value
fixed_field k r =
    if k == "timestamp"
    then some (text r.time)
    else if k == "level"
    then some (text r.level_name)
    else if k == "module"
    then some (text r.module_name)
    else if k == "call_id"
    then some (or_dash (lookup "call_id" r.attributes))
    else if k == "direction"
    then some (or_dash (lookup "direction" r.attributes))
    else if k == "peer"
    then some (or_dash (lookup "peer" r.attributes))
    else if k == "event"
    then some (text r.message)
    else none

-- An attribute that is spelled with an underscore first, or like a name of the class or of the list of
-- reserved names, is left out.
abbrev pub is_left_out : List String → String → Bool
is_left_out class_names k =
    startswith k "_" || (contains class_names k || contains reserved_names k)

-- What a line has under a key: the fixed field, or else the attribute, unless it is hidden.
abbrev pub rendered : Option Value → Bool → Option Value → Option Value
rendered (some v) hidden attribute = some v
rendered none true attribute = none
rendered none false attribute = shown attribute

-- The exception stands in front of everything.
abbrev pub with_exception : String → Option String → Option Value → Option Value
with_exception k none v = v
with_exception k (some trace) v = if k == "exception" then some (text trace) else v

-- The fields of every line are those that `LOG_FIELDS` lists, in its order.
keys-fixed_fields : (r : LogRecord) → keys (fixed_fields r) ≡ log_fields
unfolding keys fixed_fields
keys-fixed_fields r = refl
