-- ===== src/CallController/Failover.antt =====
-- A failure of the serving hop, with and without a hop left to try.
use as_platform.Base.{
  suc, ◌≡◌, refl, sym, ap, subst, true, false, not, String, List, [], ◌∷◌, ◌++◌, none, some, eqb,
  keep,
}
use as_platform.World.{
  pure, log_event, trace, ◌>>=◌, State, Env, CcEvent, fail, disconnect, NextHop, TryData, SippyCall,
}
use as_platform.CallController.{
  ends, answers, is_connected, try_failover, start_failover, finish_relay, after_failover,
  cancel_no_answer_timer, cancel_held, cancel_timer, note, originate_towards, relay_from_next_hop,
}
use as_platform.CallController.Attempt.{
  Returns, IsLoggable, attempted, attempt_calls, Attempted, originate_towards-Attempted,
  Returns-bind,
}

-- What a failover to `hop` leaves behind.
abbrev pub FailedOver : NextHop → List NextHop → TryData → State → State → Type 0
FailedOver hop rest pending s t =
    (t.ctl ≡ record (attempted hop s) { failover_hops = rest; no_answer_timer = none })
    × (t.world.sippy
        ≡ s.world.sippy
          ++ attempt_calls hop pending s
          ++ SippyCall.cancel_timer s.world.next_timer ∷ [])
    × (t.world.armed
        ≡ keep (λ x. not (eqb x s.world.next_timer)) (s.world.armed ++ s.world.next_timer ∷ []))
    × (t.world.next_ua ≡ suc s.world.next_ua)
    × (t.world.next_timer ≡ suc s.world.next_timer)
    × (t.world.sip_conf ≡ s.world.sip_conf)

start_failover-Attempted :
    (env : Env) (hop : NextHop) (rest : List NextHop) (pending : TryData) (s : State)
    → s.ctl.pending_event ≡ some pending
    → IsLoggable s.ctl.policy
    → Returns
        (λ b t.
          (b ≡ true)
          × Attempted hop pending
              (record s { ctl = record s.ctl { failover_hops = rest; ua_o = none } })
              t)
        (start_failover env (hop ∷ rest) s)
unfolding start_failover log_event
start_failover-Attempted env hop rest pending s p h =
    Returns-bind _ (originate_towards env hop) (λ _. pure true) _
      (originate_towards-Attempted env hop pending _ p h) (λ _ t a. (refl, a))

try_failover-Attempted :
    (env : Env) (hop : NextHop) (rest : List NextHop) (pending : TryData) (s : State)
    → s.ctl.failover_hops ≡ hop ∷ rest
    → s.ctl.pending_event ≡ some pending
    → IsLoggable s.ctl.policy
    → Returns
        (λ b t.
          (b ≡ true)
          × Attempted hop pending
              (record s { ctl = record s.ctl { failover_hops = rest; ua_o = none } })
              t)
        (try_failover env s)
unfolding try_failover
try_failover-Attempted env hop rest pending s e p h =
    subst
      (λ hops.
        Returns
          (λ b t.
            (b ≡ true)
            × Attempted hop pending
                (record s { ctl = record s.ctl { failover_hops = rest; ua_o = none } }) t)
          (start_failover env hops s))
      (sym e) (start_failover-Attempted env hop rest pending s p h)

-- The handler cancels the timer of the attempt that it has just made.
after_failover-FailedOver :
    (env : Env) (method summary : String) (hop : NextHop) (rest : List NextHop) (pending : TryData)
    (s t : State)
    → Attempted hop pending
        (record s { ctl = record s.ctl { failover_hops = rest; ua_o = none } })
        t
    → Returns (λ _. FailedOver hop rest pending s) (after_failover env method summary t)
unfolding after_failover cancel_no_answer_timer cancel_held cancel_timer note trace log_event
after_failover-FailedOver env method summary hop rest pending s t
      (c, calls, armed, ua, timer, conf) =
    subst
      (λ ctl.
        Returns (λ _. FailedOver hop rest pending s)
          (after_failover env method summary (record { world = t.world; ctl = ctl })))
      (sym c) (refl, rw calls, ap (keep _) armed, ua, timer, conf)

relay_ended :
    (env : Env) (event : CcEvent) (hop : NextHop) (rest : List NextHop) (pending : TryData)
    (s : State)
    → s.ctl.failover_hops ≡ hop ∷ rest
    → s.ctl.pending_event ≡ some pending
    → IsLoggable s.ctl.policy
    → Returns
        (λ _. FailedOver hop rest pending s)
        ((try_failover env >>= λ tried. finish_relay env event tried) s)
unfolding finish_relay
relay_ended env event hop rest pending s hops p h =
    Returns-bind _ (try_failover env) _ s (try_failover-Attempted env hop rest pending s hops p h)
      λ b t (started, a). rw started (after_failover-FailedOver env _ _ hop rest pending s t a)

-- A failure or a release from the serving hop, while the call is not connected, a hop remains, the
-- event to originate is there and the decision's log fields are not spelled like the log call's own,
-- makes one attempt at the first hop that remains: a new leg for its address is made, named, timed and
-- handed the event under the AS's identity. That leg and hop replace the old ones, the other hops
-- remain, the timer of the new attempt is cancelled again, and nothing else is asked of sippy.
pub relay_from_next_hop-FailedOver :
    (env : Env) (event : CcEvent) (hop : NextHop) (rest : List NextHop) (pending : TryData)
    (s : State)
    → ends event ≡ true
    → is_connected env s.ctl.ua_a ≡ false
    → s.ctl.failover_hops ≡ hop ∷ rest
    → s.ctl.pending_event ≡ some pending
    → IsLoggable s.ctl.policy
    → Returns (λ _. FailedOver hop rest pending s) (relay_from_next_hop env event s)
unfolding relay_from_next_hop ends answers
relay_from_next_hop-FailedOver env (fail r) hop rest pending s e c hops p h =
    rw c (relay_ended env (fail r) hop rest pending s hops p h)
relay_from_next_hop-FailedOver env disconnect hop rest pending s e c hops p h =
    rw c (relay_ended env disconnect hop rest pending s hops p h)
relay_from_next_hop-FailedOver env event hop rest pending s e c hops p h = absurd (cc)
