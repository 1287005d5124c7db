-- ===== src/CallMap/Shutdown.antt =====
-- The end of all calls.
use mathlib.Core.List.{append-nil, append_assoc}
use as_platform.Base.{
  ℕ, ◌≡◌, refl, sym, subst, Bool, false, not, List, [], ◌∷◌, ◌++◌, map, Option, none, some, arith,
  eqb, keep, All,
}
use as_platform.World.{Result, ok, raised, Exn, None, World, Controller, SippyCall}
use as_platform.CallController.Ending.{
  cancelled, cancel_calls, still_armed, cancel_no_answer_timer_lem,
}
use as_platform.CallController
use as_platform.CallController.Spares.{is_armed}
use as_platform.CallMap.{CallMap, dispose_each, dispose}

-- A controller whose timer is cancelled.
abbrev pub released : Controller → Controller
released c = record c { no_answer_timer = none }

-- What sippy is asked for, in the order of the calls.
abbrev pub cancels : List Controller → List SippyCall
cancels [] = []
cancels (c ∷ cs) = cancel_calls c.no_answer_timer ++ cancels cs

abbrev pub left_armed : List Controller → List ℕ → List ℕ
left_armed [] armed = armed
left_armed (c ∷ cs) armed = left_armed cs (still_armed c.no_answer_timer armed)

-- The timer that is held, if any, does not fire any more.
abbrev pub Quiet : Option ℕ → List ℕ → Type 0
Quiet none armed = Unit {0}
Quiet (some t) armed = is_armed t armed ≡ false

abbrev pub after_all : List Controller → World → World
after_all cs w = record w { sippy = w.sippy ++ cancels cs; armed = left_armed cs w.armed }

pub dispose_each_lem :
    (cs : List Controller) (w : World) → dispose_each cs w ≡ (none, map released cs, after_all cs w)
unfolding dispose_each CallController.dispose
dispose_each_lem [] w = λ i. (none, [], record w { sippy = sym (append-nil w.sippy) i })
dispose_each_lem (c ∷ cs) w =
    let next : World = (cancelled (record { world = w; ctl = c })).world in
    subst
      (λ (r : Result None).
        Path (Option Exn × List Controller × World)
          (elim r [
            | ok _ s ↦ (let (e, rest, end) = dispose_each cs s.world in (e, s.ctl ∷ rest, end))
            | raised e s ↦ (some e, s.ctl ∷ cs, s.world)
          ])
          (none, map released (c ∷ cs), after_all (c ∷ cs) w))
      (sym (cancel_no_answer_timer_lem (record { world = w; ctl = c })))
      (rw (dispose_each_lem cs next) (λ i. (
        none,
        map released (c ∷ cs),
        record (after_all (c ∷ cs) w) {
          sippy = append_assoc w.sippy (cancel_calls c.no_answer_timer) (cancels cs) i;
        },
      )))

still_quiet :
    (t : ℕ) (test : ℕ → Bool) (l : List ℕ) → is_armed t l ≡ false → is_armed t (keep test l) ≡ false
still_quiet t test [] h = refl
still_quiet t test (x ∷ l) h = ground (arith, still_quiet t test l)

cancelled_quiet : (t : ℕ) (l : List ℕ) → is_armed t (keep (λ x. not (eqb x t)) l) ≡ false
cancelled_quiet t [] = refl
cancelled_quiet t (x ∷ l) = ground (arith, cancelled_quiet t l)

pub Quiet-still_armed :
    (held o : Option ℕ) (l : List ℕ) → Quiet held l → Quiet held (still_armed o l)
Quiet-still_armed none o l h = tt
Quiet-still_armed (some t) none l h = h
Quiet-still_armed (some t) (some x) l h = still_quiet t _ l h

pub Quiet-cancelled : (held : Option ℕ) (l : List ℕ) → Quiet held (still_armed held l)
Quiet-cancelled none l = tt
Quiet-cancelled (some t) l = cancelled_quiet t l

pub Quiet-left_armed :
    (held : Option ℕ) (cs : List Controller) (l : List ℕ)
    → Quiet held l
    → Quiet held (left_armed cs l)
Quiet-left_armed held [] l h = h
Quiet-left_armed held (c ∷ cs) l h =
    Quiet-left_armed held cs _ (Quiet-still_armed held c.no_answer_timer l h)

pub All-Quiet :
    (cs : List Controller) (l : List ℕ) → All (λ c. Quiet c.no_answer_timer (left_armed cs l)) cs
All-Quiet [] l = tt
All-Quiet (c ∷ cs) l =
    (Quiet-left_armed c.no_answer_timer cs _ (Quiet-cancelled c.no_answer_timer l), All-Quiet cs _)

-- Disposing of the map raises nothing. Every controller is kept, in its place, and holds no timer
-- any more; sippy is asked to cancel the timers that were held, in the order of the calls and
-- nothing else, and none of them is armed any more.
pub dispose-Quiet :
    (m : CallMap) (w : World)
    → (end : World) × (dispose m w
        ≡ (none, record m { controllers = map released m.controllers }, end))
      × (end.sippy ≡ w.sippy ++ cancels m.controllers)
      × All (λ (c : Controller). Quiet c.no_answer_timer end.armed) m.controllers
unfolding dispose
dispose-Quiet m w = (
  after_all m.controllers w,
  rw (dispose_each_lem m.controllers w) refl,
  refl,
  All-Quiet m.controllers w.armed,
)
