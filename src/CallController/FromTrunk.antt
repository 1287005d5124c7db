-- ===== src/CallController/FromTrunk.antt =====
-- An event of the trunk leg keeps the invariant.
use as_platform.Base.{
  ℕ, ◌≡◌, ◌≢◌, inl, inr, refl, sym, subst, true, Option, none, some, arith, Option-cases,
}
use as_platform.World.{
  State, Env, CcEvent, try_event, ring, TryData, PolicyDecision, PolicyAction, relay, reject, trace,
  log_event,
}
use as_platform.CallController.{
  is_ua, relay_from_trunk, relay_on, first_from_trunk, tear_down, note,
}
use as_platform.CallController.Attempt.{Returns, Returns-mono}
use as_platform.CallController.Spares.{Spares-same, Spares-still_armed, Spares-attempted}
use as_platform.CallController.Trunk.{Decided, accepted, relay_from_trunk-Decided}
use as_platform.CallController.Steps.{
  IsApp, Routed, IsValid, Kept, Grows, Sparing, Renews, Valid-at, Attempted-IsValid,
  cancelled-Valid,
}

pub is_ua-some : (ua : ℕ) (leg : Option ℕ) → is_ua ua leg ≡ true → leg ≡ some ua
unfolding is_ua
is_ua-some ua none h = cc
is_ua-some ua (some l) h = ground arith

-- The trunk leg is there in a valid state.
pub Decided-IsValid :
    (action : PolicyAction) (d : PolicyDecision) (s t : State)
    → s.ctl.ua_o ≡ none
    → IsValid s
    → Decided action d s t
    → IsValid t
Decided-IsValid reject d s t fresh v (error, _, (c, _, _, armed, ua, timer)) =
    let w = cancelled-Valid s v in
    Valid-at t c ua timer armed (record {
      trunk = w.trunk;
      leg = w.leg;
      routed =
          subst (λ leg. Routed leg (record s.ctl { policy = some d; no_answer_timer = none }))
            (sym fresh) (subst (λ leg. Routed leg s.ctl) fresh v.routed);
      held = tt;
      waiting = w.waiting;
    })
Decided-IsValid relay d s t fresh v (p, hop, rest, e, hops, words, a) =
    Attempted-IsValid hop p (accepted d rest s) t v.trunk e words v.waiting a

Decided-Grows :
    (action : PolicyAction) (d : PolicyDecision) (s t : State) → Decided action d s t → Grows s t
Decided-Grows reject d s t (error, _, (_, _, _, _, ua, timer)) = (omega arith, omega arith)
Decided-Grows relay d s t (p, hop, rest, _, _, _, (_, _, _, ua, timer, _)) =
    (omega arith, omega arith)

Decided-Renews :
    (action : PolicyAction) (d : PolicyDecision) (s t : State) → Decided action d s t → Renews s t
Decided-Renews reject d s t (error, _, (c, _, _, _, _, _)) = rw c (refl, λ x lt o. o)
Decided-Renews relay d s t (p, hop, rest, _, _, _, (c, _, _, _, _, _)) =
    rw c (refl, λ x lt o e. ground arith)

Decided-Sparing :
    (action : PolicyAction) (d : PolicyDecision) (s t : State)
    → Decided action d s t
    → Sparing none s t
Decided-Sparing reject d s t (error, _, (c, _, _, armed, _, _)) =
    rw (c, armed) (Spares-still_armed _ _ _ none)
Decided-Sparing relay d s t (p, hop, rest, _, _, _, (c, _, armed, _, _, _)) =
    rw (c, armed) (Spares-attempted _ _ _ none)

-- sippy has been called, and nothing else has changed.
abbrev Untouched : State → State → Type 0
Untouched s t =
    (t.ctl ≡ s.ctl)
    × (t.world.next_ua ≡ s.world.next_ua)
    × (t.world.next_timer ≡ s.world.next_timer)
    × (t.world.armed ≡ s.world.armed)

pub Untouched-Kept : (s t : State) → IsValid s → Untouched s t → Kept none s t
Untouched-Kept s t v (c, ua, time, armed) = (
  Valid-at t c ua time armed v,
  (omega arith, omega arith),
  rw c (refl, λ x lt o. o),
  rw (c, armed) (Spares-same _ _ _ none),
)

-- A caller that gives up before the call is routed.
pub from_gone :
    (env : Env) (e : CcEvent) (s : State)
    → ((d : TryData) → e ≢ try_event d)
    → IsValid s
    → s.ctl.ua_o ≡ none
    → Returns (λ _. Untouched s) (relay_from_trunk env e s)
unfolding relay_from_trunk relay_on
from_gone env e s not_try v fresh =
    subst (λ leg. Returns (λ _. Untouched s) (relay_on env e leg s)) (sym fresh) (go e not_try)
  where
    torn : Returns (λ _. Untouched s) (tear_down s.ctl.ua_a s)
    torn =
        let (a, e, _) = v.trunk in
        subst (λ leg. Returns (λ _. Untouched s) (tear_down leg s)) (sym e)
          (unfold tear_down in (refl, refl, refl, refl))

    go :
        (e : CcEvent)
        → ((d : TryData) → e ≢ try_event d)
        → Returns (λ _. Untouched s) (first_from_trunk env e s)
    go (try_event d) h = absurd (h d refl)
    go (ring r) h = unfold first_from_trunk in torn
    go e h = unfold first_from_trunk in torn

from_new :
    (env : Env) (e : CcEvent) (s : State)
    → IsApp env
    → IsValid s
    → s.ctl.ua_o ≡ none
    → Returns (λ _. Kept none s) (relay_from_trunk env e s)
from_new env (try_event d) s app v fresh =
    Returns-mono (λ _. Kept none s) _ (relay_from_trunk-Decided env d s fresh (app d))
      (λ _ t r. (
        Decided-IsValid _ _ s t fresh v r,
        Decided-Grows _ _ s t r,
        Decided-Renews _ _ s t r,
        Decided-Sparing _ _ s t r,
      ))
from_new env (ring r) s app v fresh =
    Returns-mono _ _ (from_gone env (ring r) s (λ d x. cc) v fresh)
      (λ _ t r. Untouched-Kept s t v r)
from_new env e s app v fresh =
    Returns-mono _ _ (from_gone env e s (λ d x. cc) v fresh) (λ _ t r. Untouched-Kept s t v r)

from_routed :
    (env : Env) (e : CcEvent) (s : State) (ua : ℕ)
    → IsValid s
    → s.ctl.ua_o ≡ some ua
    → Returns (λ _. Kept none s) (relay_from_trunk env e s)
unfolding relay_from_trunk
from_routed env e s ua v routed =
    subst (λ leg. Returns (λ _. Kept none s) (relay_on env e leg s)) (sym routed)
      (unfold relay_on note trace log_event in
        (v, (omega arith, omega arith), (refl, λ x lt o. o), Spares-same _ _ _ none))

pub from_trunk :
    (env : Env) (e : CcEvent) (s : State)
    → IsApp env
    → IsValid s
    → Returns (λ _. Kept none s) (relay_from_trunk env e s)
from_trunk env e s app v = elim (Option-cases s.ctl.ua_o) [
  | inl fresh ↦ from_new env e s app v fresh
  | inr (ua, routed) ↦ from_routed env e s ua v routed
]
