-- ===== src/CallController/Trunk.antt =====
-- Events of the trunk leg: the decision on a new call, and the relay of a call that is routed.
use as_platform.Base.{◌≡◌, refl, sym, subst, false, ◌||◌, List, [], ◌∷◌, ◌++◌, none, some}
use as_platform.Base.Dict.{keys}
use as_platform.Errors.{AsError, as_log_fields, sip_status, sip_phrase}
use as_platform.Metrics.{record_call_disposition}
use as_platform.World.{
  State, Env, try_event, fail, NextHop, TryData, PolicyDecision, PolicyAction, relay, reject, clash,
  trace, log_event,
}
use as_platform.CallController.{
  reject_on_trunk, reject_with, log_rejection, text_fields, log_keywords, cancel_no_answer_timer,
  tell_trunk, originate_first, apply_decision, apply_call_policy, originate_outbound_leg,
  first_from_trunk, relay_on, relay_from_trunk,
}
use as_platform.CallController.Attempt.{
  Returns, Returns-step, Returns-mono, Attempted, originate_towards-Attempted,
}
use as_platform.CallController.Ending.{
  cancel_calls, still_armed, cancel_no_answer_timer_lem, told, tell_lem,
}

-- The rejection's log call gets no keyword twice.
abbrev IsReportable : PolicyDecision → AsError → Type 0
IsReportable d error =
    let fields = text_fields (as_log_fields error) in
    (clash log_keywords fields || clash (log_keywords ++ keys fields) d.reject_log_fields) ≡ false

-- What the base asks of a decision, by its action.
abbrev IsRelay : PolicyDecision → Type 0
IsRelay d =
    (p : TryData) × (hop : NextHop) × (rest : List NextHop) × (d.outbound_event ≡ some p)
    × (d.next_hops ≡ hop ∷ rest)
    × (clash (log_keywords ++ "method" ∷ []) d.relay_log_fields ≡ false)

abbrev IsReject : PolicyDecision → Type 0
IsReject d = (error : AsError) × (d.error ≡ some error) × IsReportable d error

abbrev pub IsDecision : PolicyAction → PolicyDecision → Type 0
IsDecision relay d = IsRelay d
IsDecision reject d = IsReject d

-- The trunk leg is answered with the status and the phrase of the error.
abbrev Rejected : PolicyDecision → AsError → State → State → Type 0
Rejected d error s t =
    (t.ctl ≡ record s.ctl { policy = some d; no_answer_timer = none })
    × (t.world.sippy
        ≡ s.world.sippy
          ++ cancel_calls s.ctl.no_answer_timer
          ++ told (fail (some (record { code = sip_status error; reason = sip_phrase error })))
              s.ctl.ua_a s.world.sip_conf)
    × (t.world.metrics ≡ record_call_disposition d.disposition s.world.metrics)
    × (t.world.armed ≡ still_armed s.ctl.no_answer_timer s.world.armed)
    × (t.world.next_ua ≡ s.world.next_ua)
    × (t.world.next_timer ≡ s.world.next_timer)

reject_with-Rejected :
    (env : Env) (d : PolicyDecision) (error : AsError) (s : State)
    → IsReportable d error
    → Returns
        (λ _. Rejected d error s)
        (reject_with env d (some error) (record s { ctl = record s.ctl { policy = some d } }))
unfolding reject_with log_rejection tell_trunk trace log_event
reject_with-Rejected env d error s h =
    Returns-step _ cancel_no_answer_timer _ _ (cancel_no_answer_timer_lem _) (
      rw h (
        subst (λ r. Returns (λ _. Rejected d error s) r) (sym (tell_lem _ s.ctl.ua_a _))
          (refl, refl, refl, refl, refl, refl)))

-- The first attempt of a relayed call, with the decision's other hops left for a failover.
abbrev pub accepted : PolicyDecision → List NextHop → State → State
accepted d rest s = record s {
  ctl = record s.ctl { policy = some d; pending_event = d.outbound_event; failover_hops = rest };
}

originate_first-Attempted :
    (env : Env) (d : PolicyDecision) (p : TryData) (hop : NextHop) (rest : List NextHop) (s : State)
    → d.outbound_event ≡ some p
    → clash (log_keywords ++ "method" ∷ []) d.relay_log_fields ≡ false
    → Returns
        (λ _. Attempted hop p (accepted d rest s))
        (originate_first env (hop ∷ rest) (accepted d d.next_hops s))
unfolding originate_first
originate_first-Attempted env d p hop rest s e h =
    originate_towards-Attempted env hop p (accepted d rest s) e h

-- What a decision makes of a new call.
abbrev pub Decided : PolicyAction → PolicyDecision → State → State → Type 0
Decided reject d s t = (error : AsError) × (d.error ≡ some error) × Rejected d error s t
Decided relay d s t =
    (p : TryData) × (hop : NextHop) × (rest : List NextHop) × (d.outbound_event ≡ some p)
    × (d.next_hops ≡ hop ∷ rest)
    × (clash (log_keywords ++ "method" ∷ []) d.relay_log_fields ≡ false)
    × Attempted hop p (accepted d rest s) t

apply_decision-Decided :
    (env : Env) (action : PolicyAction) (d : PolicyDecision) (s : State)
    → IsDecision action d
    → Returns
        (λ _. Decided action d s)
        (apply_decision env action d (record s { ctl = record s.ctl { policy = some d } }))
unfolding apply_decision reject_on_trunk
apply_decision-Decided env reject d s (error, e, h) =
    subst
      (λ o.
        Returns (λ _. Decided reject d s)
          (reject_with env d o (record s { ctl = record s.ctl { policy = some d } })))
      (sym e)
      (Returns-mono {P = λ _. Rejected d error s} (λ _. Decided reject d s) _
        (reject_with-Rejected env d error s h) (λ _ t r. (error, e, r)))
apply_decision-Decided env relay d s (p, hop, rest, e, hops, h) =
    subst (λ l. Returns (λ _. Decided relay d s) (originate_first env l (accepted d d.next_hops s)))
      (sym hops)
      (Returns-mono {P = λ _. Attempted hop p (accepted d rest s)} (λ _. Decided relay d s) _
        (originate_first-Attempted env d p hop rest s e h) (λ _ t a. (p, hop, rest, e, hops, h, a)))

-- A call without a next-hop leg gets what the application decides, if the decision is complete (a
-- relay names an event and a hop, a rejection its error, and no log field is spelled like an argument
-- of the log call): a rejection answers the trunk leg, if there is one, with the status and the phrase
-- of the decision's error, counts its disposition, and makes no next-hop leg; a relay makes one
-- attempt, at the first hop, and leaves the others for a failover.
pub relay_from_trunk-Decided :
    (env : Env) (event : TryData) (s : State)
    → s.ctl.ua_o ≡ none
    → IsDecision (env.decide event).action (env.decide event)
    → Returns
        (λ _. Decided (env.decide event).action (env.decide event) s)
        (relay_from_trunk env (try_event event) s)
unfolding relay_from_trunk relay_on first_from_trunk originate_outbound_leg apply_call_policy
relay_from_trunk-Decided env event s fresh h =
    subst
      (λ leg.
        Returns (λ _. Decided (env.decide event).action (env.decide event) s)
          (relay_on env (try_event event) leg s))
      (sym fresh) (apply_decision-Decided env (env.decide event).action (env.decide event) s h)
