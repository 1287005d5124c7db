-- ===== src/CallController/Keeps.antt =====
-- Every input keeps the invariant, and no handler raises.
use as_platform.Base.{
  ℕ, ◌≡◌, inl, inr, refl, sym, subst, Bool, true, false, not, List, [], ◌∷◌, Option, none, some,
  arith, if◌then◌else◌, eqb, keep, Bool-cases,
}
use as_platform.World.{State, Env, CcEvent, NextHop, TryData, log_event}
use as_platform.CallController.{
  recv_event, timer_fires, dispose, is_ua, is_connected, disarm, relay_from_next_hop, ends, answers,
  on_next_hop_no_answer, give_up_on,
}
use as_platform.CallController.Attempt.{IsLoggable, Returns, Returns-bind, Returns-mono}
use as_platform.CallController.Ending.{
  cancelled, cancel_no_answer_timer_lem, Ended, Passed, relay_from_next_hop-Ended,
  relay_from_next_hop-Passed,
}
use as_platform.CallController.Failover.{FailedOver, relay_from_next_hop-FailedOver}
use as_platform.CallController.Spares.{
  Spares-same, Spares-still_armed, Spares-failed_over, Spares-fired, Spares-cancelled,
}
use as_platform.CallController.Steps.{
  Input, event, fires, stopped, perform, run, IsApp, Routed, IsValid, Kept, Grows, Sparing, Renews,
  fired_by, Valid-at, FailedOver-IsValid, cancelled-Valid, waiting_fewer,
}
use as_platform.CallController.FromTrunk.{is_ua-some, from_trunk}

Ended-Kept : (env : Env) (e : CcEvent) (s t : State) → IsValid s → Ended env e s t → Kept none s t
Ended-Kept env e s t v (c, _, armed, _, ua, timer, _) = (
  Valid-at t c ua timer armed (cancelled-Valid s v),
  (omega arith, omega arith),
  rw c (refl, λ x lt o. o),
  rw (c, armed) (Spares-still_armed _ _ _ none),
)

Passed-Kept : (e : CcEvent) (s t : State) → IsValid s → Passed e s t → Kept none s t
Passed-Kept e s t v (c, _, armed, _, ua, timer, _) = (
  Valid-at t c ua timer armed v,
  (omega arith, omega arith),
  rw c (refl, λ x lt o. o),
  rw (c, armed) (Spares-same _ _ _ none),
)

FailedOver-Kept :
    (hop : NextHop) (rest : List NextHop) (p : TryData) (s t : State)
    → IsValid s
    → s.ctl.pending_event ≡ some p
    → IsLoggable s.ctl.policy
    → FailedOver hop rest p s t
    → Kept none s t
FailedOver-Kept hop rest p s t v pending words r =
    let (c, _, armed, ua, timer, _) = r in
    (
      FailedOver-IsValid hop rest p s t v pending words r,
      (omega arith, omega arith),
      rw c (refl, λ x lt o e. ground arith),
      rw (c, armed) (Spares-failed_over _ _ _ none),
    )

from_next_hop :
    (env : Env) (e : CcEvent) (s : State) (ua : ℕ)
    → IsValid s
    → s.ctl.ua_o ≡ some ua
    → Returns (λ _. Kept none s) (relay_from_next_hop env e s)
from_next_hop env e s ua v leg = elim (Bool-cases (ends e)) [
  | inl over ↦ elim (Bool-cases (is_connected env s.ctl.ua_a)) [
    | inl c ↦
        Returns-mono _ _ (relay_from_next_hop-Ended env e s over (inl c))
          (λ _ t r. Ended-Kept env e s t v r)
    | inr c ↦ go s.ctl.failover_hops refl over c
  ]
  | inr on ↦ Returns-mono _ _ (relay_from_next_hop-Passed env e s on) (λ _ t r.
      after_passed (answers e) t
        (Passed-Kept e (if answers e then cancelled s else s) t (kept (answers e)) r))
]
  where
    after_passed :
        (b : Bool) (t : State) → Kept none (if b then cancelled s else s) t → Kept none s t
    after_passed true t (w, grows, renews, spares) =
        (w, grows, renews, Spares-cancelled _ s.ctl.no_answer_timer s.world.armed none _ _ spares)
    after_passed false t h = h

    kept : (b : Bool) → IsValid (if b then cancelled s else s)
    kept true = cancelled-Valid s v
    kept false = v

    go :
        (hops : List NextHop)
        → s.ctl.failover_hops ≡ hops
        → ends e ≡ true
        → is_connected env s.ctl.ua_a ≡ false
        → Returns (λ _. Kept none s) (relay_from_next_hop env e s)
    go [] empty over c =
        Returns-mono _ _ (relay_from_next_hop-Ended env e s over (inr empty))
          (λ _ t r. Ended-Kept env e s t v r)
    go (hop ∷ rest) more over c =
        let (_, _, _, p, pending, words) = subst (λ l. Routed l s.ctl) leg v.routed in
        Returns-mono _ _
          (relay_from_next_hop-FailedOver env e hop rest p s over c more pending words)
          (λ _ t r. FailedOver-Kept hop rest p s t v pending words r)

recv_event-Kept :
    (env : Env) (e : CcEvent) (ua : ℕ) (s : State)
    → IsApp env
    → IsValid s
    → Returns (λ _. Kept none s) (recv_event env e ua s)
unfolding recv_event
recv_event-Kept env e ua s app v = elim (Bool-cases (is_ua ua s.ctl.ua_a)) [
  | inl trunk ↦ rw trunk (from_trunk env e s app v)
  | inr other_leg ↦ rw other_leg (elim (Bool-cases (is_ua ua s.ctl.ua_o)) [
    | inl hop ↦ rw hop (from_next_hop env e s ua v (is_ua-some ua s.ctl.ua_o hop))
    | inr stale ↦
        rw stale (v, (omega arith, omega arith), (refl, λ x lt o. o), Spares-same _ _ _ none)
  ])
]

-- A timer that fires is disarmed; the handler then at most asks sippy to release the leg.
abbrev Fired : ℕ → State → State → Type 0
Fired x s t =
    (t.ctl ≡ s.ctl)
    × (t.world.next_ua ≡ s.world.next_ua)
    × (t.world.next_timer ≡ s.world.next_timer)
    × (t.world.armed ≡ keep (λ y. not (eqb y x)) s.world.armed)

pub fires-Fired : (env : Env) (x : ℕ) (s : State) → Returns (λ _. Fired x s) (timer_fires env x s)
unfolding timer_fires on_next_hop_no_answer
fires-Fired env x s = go s.ctl.ua_o
  where
    after : State
    after = record s { world = disarm x s.world }

    go : (leg : Option ℕ) → Returns (λ _. Fired x s) (give_up_on env leg after)
    go none = unfold give_up_on in (refl, refl, refl, refl)
    go (some ua) = elim (Bool-cases (is_connected env s.ctl.ua_a)) [
      | inl c ↦ unfold give_up_on in rw c (refl, refl, refl, refl)
      | inr c ↦ unfold give_up_on log_event in rw c (refl, refl, refl, refl)
    ]

pub Fired-IsValid : (x : ℕ) (s t : State) → IsValid s → Fired x s t → IsValid t
Fired-IsValid x s t v (c, ua, time, armed) = Valid-at t c ua time armed (record {
  trunk = v.trunk;
  leg = v.leg;
  routed = v.routed;
  held = v.held;
  waiting = waiting_fewer s.world.next_timer _ s.world.armed v.waiting;
})

Fired-Grows : (x : ℕ) (s t : State) → Fired x s t → Grows s t
Fired-Grows x s t (_, ua, time, _) = (omega arith, omega arith)

Fired-Renews : (x : ℕ) (s t : State) → Fired x s t → Renews s t
Fired-Renews x s t (c, _, _, _) = rw c (refl, λ y lt o. o)

Fired-Sparing : (x : ℕ) (s t : State) → Fired x s t → Sparing (some x) s t
Fired-Sparing x s t (c, _, _, armed) = rw (c, armed) (Spares-fired _ _ _ x)

-- Whatever sippy delivers to a call, in any order, the handler raises nothing and keeps the
-- invariant, as long as the application's decisions are complete; the timers of the other calls are
-- left alone, but for one that fires.
pub perform-Kept :
    (env : Env) (input : Input) (s : State)
    → IsApp env
    → IsValid s
    → Returns (λ _. Kept (fired_by input) s) (perform env input s)
unfolding perform dispose
perform-Kept env (event e ua) s app v = recv_event-Kept env e ua s app v
perform-Kept env (fires x) s app v =
    Returns-mono (λ _. Kept (some x) s) _ (fires-Fired env x s)
      (λ _ t r.
        (Fired-IsValid x s t v r, Fired-Grows x s t r, Fired-Renews x s t r, Fired-Sparing x s t r))
perform-Kept env stopped s app v =
    subst (Returns (λ _. Kept none s)) (sym (cancel_no_answer_timer_lem s)) (
      cancelled-Valid s v,
      (omega arith, omega arith),
      (refl, λ x lt o. o),
      Spares-still_armed _ _ _ none,
    )

-- The applications that take the decisions of a run all keep their side.
abbrev pub IsRun : List (Env × Input) → Type 0
IsRun [] = Unit {0}
IsRun ((env, input) ∷ rest) = IsApp env × IsRun rest

-- From a valid state, any sequence of inputs (events of either leg or of a replaced one, timers that
-- fire, disposals) runs without raising and ends in a valid state, if at every input the application
-- decides completely: a relay names an event and a hop, a rejection its error, and no log field is
-- spelled like an argument of the log call.
pub run-IsValid :
    (inputs : List (Env × Input)) (s : State)
    → IsRun inputs
    → IsValid s
    → Returns (λ _. IsValid) (run inputs s)
unfolding run
run-IsValid [] s app v = v
run-IsValid ((env, input) ∷ rest) s app v =
    Returns-bind {P = λ _. Kept (fired_by input) s} (λ _. IsValid) (perform env input)
      (λ _. run rest) s (perform-Kept env input s app.0 v) (λ _ t w. run-IsValid rest t app.1 w.0)
