-- ===== src/Errors.antt =====
-- errors.py: the error mechanism and the framework's own code family.
pub mod Fields
use as_platform.Base.{ℕ, String, List, [], ◌∷◌, Option, none, some, ◌==◌, eqb, if◌then◌else◌}
use as_platform.Base.Dict.{Dict, update}
use as_platform.Base.Text.{str}

-- A member of any code family: what `ErrorCode.__init__` binds.
pub record ErrorCode : Type 0 where
  pub code : String
  pub sip_status : ℕ
  pub message : String

pub data SkeletonErrorCode : Type 0 where
  cfg_missing cfg_invalid cfg_port_unavailable cfg_peer_invalid : SkeletonErrorCode
  peer_not_allowed peer_unreachable peer_malformed_request : SkeletonErrorCode
  internal_error : SkeletonErrorCode

unfoldable pub error_code : SkeletonErrorCode → ErrorCode
error_code cfg_missing = record {
  code = "AS-CFG-001";
  sip_status = 500;
  message = "required configuration value is missing";
}
error_code cfg_invalid = record {
  code = "AS-CFG-002";
  sip_status = 500;
  message = "configuration value failed validation";
}
error_code cfg_port_unavailable = record {
  code = "AS-CFG-003";
  sip_status = 500;
  message = "signalling port cannot be bound";
}
error_code cfg_peer_invalid = record {
  code = "AS-CFG-004";
  sip_status = 500;
  message = "trunk peer configuration is not usable";
}
error_code peer_not_allowed = record {
  code = "AS-PEER-001";
  sip_status = 403;
  message = "source address is not an allowed trunk peer";
}
error_code peer_unreachable = record {
  code = "AS-PEER-002";
  sip_status = 503;
  message = "next hop peer did not answer";
}
error_code peer_malformed_request = record {
  code = "AS-PEER-003";
  sip_status = 400;
  message = "request from the trunk could not be parsed";
}
error_code internal_error = record {
  code = "AS-INT-001";
  sip_status = 500;
  message = "unexpected internal failure";
}

abbrev sip_phrases : List (ℕ × String)
sip_phrases =
    (400, "Bad Request")
    ∷ (403, "Forbidden")
    ∷ (404, "Not Found")
    ∷ (480, "Temporarily Unavailable")
    ∷ (500, "Server Internal Error")
    ∷ (503, "Service Unavailable")
    ∷ (603, "Decline")
    ∷ (608, "Rejected")
    ∷ []

-- `SIP_PHRASES.get(status, default)`
unfoldable phrase_for : ℕ → String → List (ℕ × String) → String
phrase_for status default [] = default
phrase_for status default ((s, phrase) ∷ rest) =
    if eqb status s then phrase else phrase_for status default rest

unfoldable sip_status_for : ErrorCode → ℕ
sip_status_for code = code.sip_status

pub record AsError : Type 0 where
  pub code : ErrorCode
  pub detail : String
  pub call_id : Option String
  pub context : Dict String

-- `detail or code.message`
unfoldable detail_or : Option String → String → String
detail_or none message = message
detail_or (some d) message = if d == "" then message else d

unfoldable pub as_error : ErrorCode → Option String → Option String → Dict String → AsError
unfolding detail_or
as_error code detail call_id context = record {
  code = code;
  detail = detail_or detail code.message;
  call_id = call_id;
  context = context;
}

unfoldable pub sip_status : AsError → ℕ
sip_status e = e.code.sip_status

unfoldable pub sip_phrase : AsError → String
unfolding sip_status phrase_for
sip_phrase e = phrase_for (sip_status e) "Server Internal Error" sip_phrases

unfoldable pub as_log_fields : AsError → Dict String
unfolding sip_status update
as_log_fields e =
    update
      (("error_code", e.code.code)
        ∷ ("sip_status", str (sip_status e))
        ∷ ("error_detail", e.detail)
        ∷ [])
      e.context
