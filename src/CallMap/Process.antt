-- ===== src/CallMap/Process.antt =====
-- All calls of a process over one world: requests on the trunk, inputs to any of the calls, and the
-- disposal of the map, in any order.
pub mod Delivery
pub mod Lives
pub mod Apart
pub mod Elsewhere
pub mod Isolation
use as_platform.Base.{
  ℕ, zero, suc, ◌<◌, ◌≤◌, ◌≡◌, refl, sym, subst, inl, inr, String, List, [], ◌∷◌, ◌++◌, map, Option,
  none, some, arith, All,
}
use as_platform.World.{State, Result, ok, raised, Exn, None, World, Env, Controller, Request}
use as_platform.CallController.Attempt.{Returns}
use as_platform.CallController.Steps.{
  Input, perform, IsApp, waiting-still_armed, Below, IsLeg, Routed, Valid, IsValid, Grows, Kept,
}
use as_platform.CallController.Keeps.{perform-Kept}
use as_platform.CallMap.{CallMap, Outcome, answered, failed, recv_request, dispose}
use as_platform.CallMap.Screening.{
  IsTrunkLoggable, IsFresh, Opened, Opened-IsValid, Refused, Accepted, Screened,
  recv_request-Screened,
}
use as_platform.CallMap.Shutdown.{released, after_all, left_armed, dispose_each_lem}

-- A request, with the controller that the application would build for it; an input to the call with a
-- number, which sippy delivers to the controller that made the UA or the timer; the end of all calls.
pub data ProcessInput : Type 0 where
  arrives : Env → (Option (String × ℕ) → Controller) → Request → ProcessInput
  reaches : ℕ → Env → Input → ProcessInput
  shut_down : ProcessInput

abbrev pub Calls : Type 0
Calls = Option Exn × List Controller × World

abbrev pub settled : List Controller → Result None → Calls
settled cs (ok _ s) = (none, s.ctl ∷ cs, s.world)
settled cs (raised e s) = (some e, s.ctl ∷ cs, s.world)

unfoldable pub deliver : ℕ → Env → Input → List Controller → World → Calls
unfolding perform
deliver i env input [] w = (none, [], w)
deliver zero env input (c ∷ cs) w = settled cs (perform env input (record { world = w; ctl = c }))
deliver (suc i) env input (c ∷ cs) w =
    let (e, rest, v) = deliver i env input cs w in (e, c ∷ rest, v)

abbrev pub Process : Type 0
Process = Option Exn × CallMap × World

abbrev pub after_request : Outcome → Process
after_request (answered a m w) = (none, m, w)
after_request (failed e m w) = (some e, m, w)

unfoldable pub process_input : ProcessInput → CallMap → World → Process
unfolding deliver recv_request dispose
process_input (arrives env build request) m w = after_request (recv_request env build request m w)
process_input (reaches i env input) m w =
    let (e, cs, v) = deliver i env input m.controllers w in (e, record m { controllers = cs }, v)
process_input shut_down m w = dispose m w

-- The inputs up to one that raises.
unfoldable pub process_inputs : List ProcessInput → CallMap → World → Process
unfolding process_input
process_inputs [] m w = (none, m, w)
process_inputs (input ∷ inputs) m w =
    let (e, m', w') = process_input input m w in
    elim e [ none ↦ process_inputs inputs m' w' | some x ↦ (some x, m', w') ]
