-- ===== src/CallController/Ending.antt =====
-- The end of a call on the next-hop leg: the timer goes, the outcome is counted, the trunk is told.
use mathlib.Core.List.{append-nil}
use as_platform.Base.{
  ℕ, ◌≡◌, ◌⊎◌, inl, inr, refl, sym, ap, subst, true, false, not, ◌&&◌, ◌==◌, String, List, [], ◌∷◌,
  ◌++◌, Option, none, some, keep, eqb, if◌then◌else◌, Bool-cases,
}
use as_platform.Metrics.{CallDisposition, completed, failed, abandoned, record_call_disposition}
use as_platform.World.{
  ◌>>◌, pure, log_event, trace, State, ok, Env, CcEvent, fail, disconnect, SippyCall, SipConf,
}
use as_platform.CallController.{
  ends, answers, is_connected, try_failover, start_failover, finish_relay, pass_to_trunk,
  relay_from_next_hop, disposition_of, record_disposition, note, tell, tell_trunk, cancel_held,
  cancel_no_answer_timer, cancel_timer,
}
use as_platform.CallController.Attempt.{Returns, Returns-step, >>=-step}

-- The world without the timer that the controller holds.
abbrev pub cancel_calls : Option ℕ → List SippyCall
cancel_calls none = []
cancel_calls (some timer) = SippyCall.cancel_timer timer ∷ []

abbrev pub still_armed : Option ℕ → List ℕ → List ℕ
still_armed none armed = armed
still_armed (some timer) armed = keep (λ t. not (eqb t timer)) armed

abbrev pub cancelled : State → State
cancelled s = record {
  world = record s.world {
    sippy = s.world.sippy ++ cancel_calls s.ctl.no_answer_timer;
    armed = still_armed s.ctl.no_answer_timer s.world.armed;
  };
  ctl = record s.ctl { no_answer_timer = none };
}

-- Cancelling leaves no timer in the controller, whether it held one or not.
pub cancel_no_answer_timer_lem : (s : State) → cancel_no_answer_timer s ≡ ok tt (cancelled s)
unfolding cancel_no_answer_timer cancel_held cancel_timer
cancel_no_answer_timer_lem s = go s.ctl.no_answer_timer refl
  where
    go :
        (held : Option ℕ)
        → s.ctl.no_answer_timer ≡ held
        → cancel_held held s
          ≡ ok tt (record {
            world = record s.world {
              sippy = s.world.sippy ++ cancel_calls held;
              armed = still_armed held s.world.armed;
            };
            ctl = record s.ctl { no_answer_timer = none };
          })
    go none e = λ i. ok tt (record {
      world = record s.world { sippy = sym (append-nil s.world.sippy) i };
      ctl = record s.ctl { no_answer_timer = e i };
    })
    go (some timer) e = refl

-- What a leg is told.
abbrev pub told : CcEvent → Option ℕ → SipConf → List SippyCall
told event none conf = []
told event (some ua) conf = SippyCall.recv_event ua event conf ∷ []

pub tell_lem :
    (event : CcEvent) (leg : Option ℕ) (s : State)
    → tell event leg s
      ≡ ok tt (record s {
        world = record s.world { sippy = s.world.sippy ++ told event leg s.world.sip_conf };
      })
unfolding tell
tell_lem event none s =
    λ i. ok tt (record s { world = record s.world { sippy = sym (append-nil s.world.sippy) i } })
tell_lem event (some ua) s = refl

-- How a call that ends is counted: by the event, and else by whether its trunk leg is connected.
abbrev pub ended_as : Env → Option ℕ → CcEvent → CallDisposition
ended_as env leg (fail r) = failed
ended_as env none event = abandoned
ended_as env (some ua) event = if env.connected ua then completed else abandoned

disposition_of_lem :
    (env : Env) (leg : Option ℕ) (event : CcEvent)
    → ends event ≡ true
    → disposition_of env leg event ≡ ended_as env leg event
unfolding disposition_of is_connected ends
disposition_of_lem env none (fail r) e = refl
disposition_of_lem env (some ua) (fail r) e = refl
disposition_of_lem env none disconnect e = refl
disposition_of_lem env (some ua) disconnect e = refl
disposition_of_lem env leg event e = absurd (cc)

-- The call is over as far as the next hop goes.
abbrev pub Ended : Env → CcEvent → State → State → Type 0
Ended env event s t =
    (t.ctl ≡ record s.ctl { no_answer_timer = none })
    × (t.world.sippy
        ≡ s.world.sippy
          ++ cancel_calls s.ctl.no_answer_timer
          ++ told event s.ctl.ua_a s.world.sip_conf)
    × (t.world.armed ≡ still_armed s.ctl.no_answer_timer s.world.armed)
    × (t.world.metrics ≡ record_call_disposition (ended_as env s.ctl.ua_a event) s.world.metrics)
    × (t.world.next_ua ≡ s.world.next_ua)
    × (t.world.next_timer ≡ s.world.next_timer)
    × (t.world.sip_conf ≡ s.world.sip_conf)

pass_to_trunk-Ended :
    (env : Env) (event : CcEvent) (method summary : String) (s : State)
    → ends event ≡ true
    → answers event ≡ false
    → Returns (λ _. Ended env event s) (pass_to_trunk env event method summary s)
unfolding pass_to_trunk note trace log_event record_disposition tell_trunk
pass_to_trunk-Ended env event method summary s e a =
    rw (e, a)
      (Returns-step _ (do cancel_no_answer_timer; record_disposition env event) _ _
        (>>=-step cancel_no_answer_timer _ _ (cancel_no_answer_timer_lem _))
        (Returns-step _ (tell_trunk event) _ _ (tell_lem event s.ctl.ua_a _) (
          refl,
          refl,
          refl,
          ap (λ d. record_call_disposition d s.world.metrics)
              (disposition_of_lem env s.ctl.ua_a event e),
          refl,
          refl,
          refl,
        )))

-- The call goes on: a response is passed on, and the timer that waited for one goes.
abbrev pub Passed : CcEvent → State → State → Type 0
Passed event s t =
    (t.ctl ≡ s.ctl)
    × (t.world.sippy ≡ s.world.sippy ++ told event s.ctl.ua_a s.world.sip_conf)
    × (t.world.armed ≡ s.world.armed)
    × (t.world.metrics ≡ s.world.metrics)
    × (t.world.next_ua ≡ s.world.next_ua)
    × (t.world.next_timer ≡ s.world.next_timer)
    × (t.world.sip_conf ≡ s.world.sip_conf)

pass_to_trunk-Passed :
    (env : Env) (event : CcEvent) (method summary : String) (s : State)
    → ends event ≡ false
    → Returns (λ _. Passed event s) (pass_to_trunk env event method summary s)
unfolding pass_to_trunk note trace log_event tell_trunk
pass_to_trunk-Passed env event method summary s e = rw e (
    Returns-step _ (tell_trunk event) _ _ (tell_lem event s.ctl.ua_a _)
      (elim (Bool-cases (answers event && not (method == "ACK"))) [
        | inl a ↦ rw a (refl, refl, refl, refl, refl, refl, refl)
        | inr a ↦ rw a (refl, refl, refl, refl, refl, refl, refl)
      ]))

no_failover :
    (env : Env) (event : CcEvent) (s : State)
    → is_connected env s.ctl.ua_a ≡ true ⊎ s.ctl.failover_hops ≡ []
    → (if not (is_connected env s.ctl.ua_a) then try_failover env else pure false) s ≡ ok false s
unfolding try_failover
no_failover env event s (inl connected) = rw connected
no_failover env event s (inr empty) = elim (Bool-cases (is_connected env s.ctl.ua_a)) [
  | inl c ↦ rw c
  | inr c ↦ rw c (subst (λ hops. start_failover env hops s ≡ ok false s) (sym empty) nothing_left)
]
  where
    nothing_left : start_failover env [] s ≡ ok false s
    nothing_left = unfold start_failover in refl

-- A failure or a release from the serving hop, when the call is connected or no hop is left, ends the
-- call: the no-answer timer that was held is cancelled, one disposition is counted (failed for a
-- failure; for a release completed if the trunk leg is connected, else abandoned), the trunk leg, if
-- there is one, is handed the event, and nothing else is asked of sippy.
pub relay_from_next_hop-Ended :
    (env : Env) (event : CcEvent) (s : State)
    → ends event ≡ true
    → is_connected env s.ctl.ua_a ≡ true ⊎ s.ctl.failover_hops ≡ []
    → Returns (λ _. Ended env event s) (relay_from_next_hop env event s)
unfolding relay_from_next_hop answers ends finish_relay
relay_from_next_hop-Ended env (fail r) s e last =
    Returns-step _ (if not (is_connected env s.ctl.ua_a) then try_failover env else pure false) _ _
      (no_failover env (fail r) s last) (pass_to_trunk-Ended env (fail r) _ _ s refl refl)
relay_from_next_hop-Ended env disconnect s e last =
    Returns-step _ (if not (is_connected env s.ctl.ua_a) then try_failover env else pure false) _ _
      (no_failover env disconnect s last) (pass_to_trunk-Ended env disconnect _ _ s refl refl)
relay_from_next_hop-Ended env event s e last = absurd (cc)

-- An event of the next-hop leg that is no failure and no release is handed to the trunk leg, if there
-- is one, after a ring or a connect has cancelled the no-answer timer that was held; no disposition
-- is counted, and nothing else is asked of sippy.
pub relay_from_next_hop-Passed :
    (env : Env) (event : CcEvent) (s : State)
    → ends event ≡ false
    → Returns
        (λ _. Passed event (if answers event then cancelled s else s))
        (relay_from_next_hop env event s)
unfolding relay_from_next_hop ends finish_relay
relay_from_next_hop-Passed env event s e = rw e (elim (Bool-cases (answers event)) [
  | inl a ↦ rw a (
      Returns-step _ cancel_no_answer_timer _ s (cancel_no_answer_timer_lem s)
        (pass_to_trunk-Passed env event _ _ (cancelled s) e))
  | inr a ↦ rw a (pass_to_trunk-Passed env event _ _ s e)
])
