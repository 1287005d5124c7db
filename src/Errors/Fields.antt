-- ===== src/Errors/Fields.antt =====
-- What an error reports: its status phrase and its log fields.
use as_platform.Base.{◌≡◌, ◌⊎◌, String, Option, none, some, arith, ◌==◌, if◌then◌else◌}
use as_platform.Base.Dict.{Dict, lookup, NodupKeys}
use as_platform.Base.Dict.Laws.{lookup-update}
use as_platform.Base.Text.{str}
use as_platform.Errors.{
  SkeletonErrorCode, AsError, error_code, as_error, sip_phrase, sip_status, as_log_fields,
}

-- The log fields of an error: a field that its context names has the context's value, and else the
-- three fixed fields carry the code, the decimal status and the detail, and no other field is set.
pub lookup-as_log_fields :
    (k : String) (e : AsError)
    → NodupKeys e.context
    → lookup k (as_log_fields e) ≡ (elim (lookup k e.context) [
      | some v ↦ some v
      | none ↦
          if k == "error_code"
          then some e.code.code
          else if k == "sip_status"
          then some (str (sip_status e))
          else if k == "error_detail"
          then some e.detail
          else none
    ])
unfolding as_log_fields lookup
lookup-as_log_fields k e h = rw (lookup-update k _ e.context h)

-- Each framework code reports the reason phrase of RFC 3261 that belongs to its status.
sip_phrase-skeleton :
    (c : SkeletonErrorCode) (detail call_id : Option String) (context : Dict String)
    → let e = as_error (error_code c) detail call_id context in
      ((sip_status e ≡ 400) × (sip_phrase e ≡ "Bad Request"))
      ⊎ ((sip_status e ≡ 403) × (sip_phrase e ≡ "Forbidden"))
      ⊎ ((sip_status e ≡ 500) × (sip_phrase e ≡ "Server Internal Error"))
      ⊎ ((sip_status e ≡ 503) × (sip_phrase e ≡ "Service Unavailable"))
unfolding sip_phrase as_error error_code
sip_phrase-skeleton c detail call_id context = ground arith
