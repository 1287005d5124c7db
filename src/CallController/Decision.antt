-- ===== src/CallController/Decision.antt =====
-- call_controller.py: the application's decision on a call, and what the base does with it.
use as_platform.Base.{
  ◌||◌, String, List, [], ◌∷◌, ◌++◌, Option, none, some, if◌then◌else◌, Value, text, or_none,
}
use as_platform.Base.Dict.{Dict, lookup, update, keys}
use as_platform.Base.Text.{str}
use as_platform.Errors.{AsError, sip_status, sip_phrase, as_log_fields}
use as_platform.Metrics.{record_call_disposition}
use as_platform.World.{
  M, None, ◌>>=◌, ◌>>◌, pure, raise, self, on_self, on_world, on_metrics, log_event, trace,
  index_error, assertion_error, type_error, clash, Env, fail, NextHop, TryData, PolicyDecision,
  PolicyAction, relay, reject, warning,
}
use as_platform.CallController.Helpers.{outbound, leg_trunk, log_keywords}
use as_platform.CallController.Originate.{cancel_no_answer_timer, originate_towards, tell_trunk}

-- `apply_call_policy`
unfoldable pub apply_call_policy : Env → TryData → M PolicyDecision
apply_call_policy env event = do
  on_self (λ c. record c { policy = some (env.decide event) })
  pure (env.decide event)

-- The fields of an error, as values.
unfoldable pub text_fields : Dict String → Dict Value
text_fields [] = []
text_fields ((k, v) ∷ d) = (k, text v) ∷ text_fields d

-- `_reject_on_trunk`
unfoldable pub log_rejection : Env → PolicyDecision → AsError → M None
log_rejection env decision error = do
  c ← self
  let fields = text_fields (as_log_fields error)
  if clash log_keywords fields || clash (log_keywords ++ keys fields) decision.reject_log_fields
      then raise type_error
      else on_world (
          log_event env warning decision.reject_log_message c.call_id outbound c.trunk_peer (
            update
              (update (("method", text (str (sip_status error))) ∷ []) decision.reject_log_fields)
              fields))

unfoldable pub reject_with : Env → PolicyDecision → Option AsError → M None
reject_with env decision none = raise assertion_error
reject_with env decision (some error) = do
  cancel_no_answer_timer
  on_metrics (record_call_disposition decision.disposition)
  c ← self
  on_world (
      trace c.call_id outbound (str (sip_status error)) decision.reject_trace_summary c.trunk_peer
        (or_none (lookup "rule_id" decision.attributes))
        (update (("leg", text leg_trunk) ∷ ("error_code", text error.code.code) ∷ [])
          decision.attributes))
  log_rejection env decision error
  tell_trunk (fail (some (record { code = sip_status error; reason = sip_phrase error })))

unfoldable pub reject_on_trunk : Env → PolicyDecision → M None
reject_on_trunk env decision = reject_with env decision decision.error

-- `self._failover_hops.pop(0)`, and the first attempt
unfoldable pub originate_first : Env → List NextHop → M None
originate_first env [] = raise index_error
originate_first env (hop ∷ rest) = do
  on_self (λ c. record c { failover_hops = rest })
  originate_towards env hop

-- `_originate_outbound_leg`
unfoldable pub apply_decision : Env → PolicyAction → PolicyDecision → M None
apply_decision env reject decision = reject_on_trunk env decision
apply_decision env relay decision = do
  on_self (λ c. record c {
    pending_event = decision.outbound_event;
    failover_hops = decision.next_hops;
  })
  originate_first env decision.next_hops

unfoldable pub originate_outbound_leg : Env → TryData → M None
originate_outbound_leg env event = do
  decision ← apply_call_policy env event
  apply_decision env decision.action decision
