-- ===== src/CallMap/Process/Delivery.antt =====
-- What sippy delivers to one call keeps all calls valid.
use as_platform.Base.{
  ℕ, zero, suc, ◌<◌, ◌≤◌, ◌≡◌, refl, List, [], ◌∷◌, ◌++◌, Option, none, some, arith, All,
}
use as_platform.World.{Result, ok, raised, None, World, Env, Controller}
use as_platform.CallController.Attempt.{Returns}
use as_platform.CallController.Steps.{Input, IsApp, Below, IsLeg, Valid, Kept, fired_by}
use as_platform.CallController.Keeps.{perform-Kept}
use as_platform.CallMap.{CallMap}
use as_platform.CallMap.Process.{Calls, settled, deliver}

-- Every call is in a valid state, in one world.
abbrev pub CallsValid : List Controller → World → Type 0
CallsValid cs w =
    All (λ t. t < w.next_timer) w.armed
    × All (λ (c : Controller). Valid c w.next_ua w.next_timer w.armed) cs

abbrev pub AllValid : CallMap → World → Type 0
AllValid m w = CallsValid m.controllers w

Below-more : (n m : ℕ) (o : Option ℕ) → n ≤ m → Below n o → Below m o
Below-more n m none h b = tt
Below-more n m (some x) h b = omega arith

IsLeg-more : (n m : ℕ) (a o : Option ℕ) → n ≤ m → IsLeg a o n → IsLeg a o m
IsLeg-more n m a none h l = tt
IsLeg-more n m a (some x) h l = (omega arith, l.1)

-- What happens to another call leaves a call in its valid state.
Valid-more :
    (c : Controller) (w v : World)
    → w.next_ua ≤ v.next_ua
    → w.next_timer ≤ v.next_timer
    → All (λ t. t < v.next_timer) v.armed
    → Valid c w.next_ua w.next_timer w.armed
    → Valid c v.next_ua v.next_timer v.armed
Valid-more c w v ua timer waiting h = record {
  trunk = (let (a, e, lt) = h.trunk in (a, e, omega arith));
  leg = IsLeg-more w.next_ua v.next_ua c.ua_a c.ua_o ua h.leg;
  routed = h.routed;
  held = Below-more w.next_timer v.next_timer c.no_answer_timer timer h.held;
  waiting = waiting;
}

pub All-Valid-more :
    (cs : List Controller) (w v : World)
    → w.next_ua ≤ v.next_ua
    → w.next_timer ≤ v.next_timer
    → All (λ t. t < v.next_timer) v.armed
    → All (λ (c : Controller). Valid c w.next_ua w.next_timer w.armed) cs
    → All (λ (c : Controller). Valid c v.next_ua v.next_timer v.armed) cs
All-Valid-more [] w v ua timer waiting h = tt
All-Valid-more (c ∷ cs) w v ua timer waiting h =
    (Valid-more c w v ua timer waiting h.0, All-Valid-more cs w v ua timer waiting h.1)

-- Nothing is raised, the calls are valid, and the next UA and the next timer do not fall.
abbrev pub Good : World → Calls → Type 0
Good w r =
    (r.0 ≡ none) × CallsValid r.1 r.2 × (w.next_ua ≤ r.2.next_ua) × (w.next_timer ≤ r.2.next_timer)

pub deliver-Good :
    (i : ℕ) (env : Env) (input : Input) (cs : List Controller) (w : World)
    → IsApp env
    → CallsValid cs w
    → Good w (deliver i env input cs w)
unfolding deliver
deliver-Good i env input [] w app h = (refl, h, omega arith, omega arith)
deliver-Good zero env input (c ∷ cs) w app h =
    go _ (perform-Kept env input (record { world = w; ctl = c }) app h.1.0)
  where
    go :
        (r : Result None)
        → Returns (λ _. Kept (fired_by input) (record { world = w; ctl = c })) r
        → Good w (settled cs r)
    go (ok _ s) (v, (ua, timer), _, _) =
        (refl, (v.waiting, (v, All-Valid-more cs w s.world ua timer v.waiting h.1.1)), ua, timer)
    go (raised e s) k = absurd k
deliver-Good (suc i) env input (c ∷ cs) w app h =
    let rest = deliver-Good i env input cs w app (h.0, h.1.1) in
    (
      rest.0,
      (
        rest.1.0,
        (Valid-more c w (deliver i env input cs w).2 rest.2 rest.3 rest.1.0 h.1.0, rest.1.1),
      ),
      rest.2,
      rest.3,
    )

-- The end of the list of calls.
pub All-Valid-snoc :
    (cs : List Controller) (c : Controller) (v : World)
    → All (λ (c : Controller). Valid c v.next_ua v.next_timer v.armed) cs
    → Valid c v.next_ua v.next_timer v.armed
    → All (λ (c : Controller). Valid c v.next_ua v.next_timer v.armed) (cs ++ c ∷ [])
All-Valid-snoc [] c v h x = (x, tt)
All-Valid-snoc (b ∷ cs) c v h x = (h.0, All-Valid-snoc cs c v h.1 x)
