-- ===== src/CallMap/Process/Lives.antt =====
-- All calls of a process stay valid, whatever arrives.
use as_platform.Base.{
  ℕ, ◌<◌, ◌≤◌, ◌≡◌, refl, inl, inr, String, List, [], ◌∷◌, map, Option, none, some, arith, All,
}
use as_platform.World.{State, World, Controller, Request}
use as_platform.CallController.Steps.{IsApp, waiting-still_armed, Routed, Valid}
use as_platform.CallMap.{CallMap, Outcome, dispose}
use as_platform.CallMap.Screening.{
  IsTrunkLoggable, IsFresh, Opened-IsValid, Refused, Accepted, Screened, recv_request-Screened,
}
use as_platform.CallMap.Shutdown.{released, after_all, left_armed, dispose_each_lem}
use as_platform.CallMap.Process.{
  ProcessInput, arrives, reaches, shut_down, Process, after_request, process_input, process_inputs,
}
use as_platform.CallMap.Process.Delivery.{
  AllValid, All-Valid-more, Good, deliver-Good, All-Valid-snoc,
}

-- The calls of the map are valid, whatever else the process holds.
abbrev pub Lives : World → Process → Type 0
Lives w r = Good w (r.0, r.1.controllers, r.2)

Refused-Lives :
    (code : ℕ) (m : CallMap) (w : World) (o : Outcome)
    → AllValid m w
    → Refused code m w o
    → Lives w (after_request o)
Refused-Lives code m w o h (reason, v, e, _, armed, ua, timer, _) = rw e (
  refl,
  (
    rw (armed, timer) h.0,
    All-Valid-more m.controllers w v (omega arith) (omega arith) (rw (armed, timer) h.0) h.1,
  ),
  omega arith,
  omega arith,
)

Accepted-Lives :
    (build : Option (String × ℕ) → Controller) (request : Request) (m : CallMap) (w : World)
    (o : Outcome)
    → AllValid m w
    → IsFresh (build m.global_config.nh_addr)
    → Accepted build request m w o
    → Lives w (after_request o)
Accepted-Lives build request m w o h fresh (s, e, opened) =
    let start : State = record { world = w; ctl = build m.global_config.nh_addr } in
    let v = Opened-IsValid request start s fresh h.0 opened in
    let (_, _, _, _, _, ua, timer) = opened in
    let more : w.next_ua ≤ s.world.next_ua = omega arith in
    let later : w.next_timer ≤ s.world.next_timer = omega arith in
    rw e (
      refl,
      (
        v.waiting,
        All-Valid-snoc m.controllers s.ctl s.world
            (All-Valid-more m.controllers w s.world more later v.waiting h.1) v,
      ),
      more,
      later,
    )

Screened-Lives :
    (build : Option (String × ℕ) → Controller) (request : Request) (m : CallMap) (w : World)
    (o : Outcome)
    → AllValid m w
    → IsFresh (build m.global_config.nh_addr)
    → Screened build request m w o
    → Lives w (after_request o)
Screened-Lives build request m w o h fresh (inl (_, r)) = Refused-Lives 403 m w o h r
Screened-Lives build request m w o h fresh (inr (inl (_, _, _, r))) = Refused-Lives 481 m w o h r
Screened-Lives build request m w o h fresh (inr (inr (inl (_, _, _, r)))) =
    Refused-Lives 501 m w o h r
Screened-Lives build request m w o h fresh (inr (inr (inr (_, _, _, r)))) =
    Accepted-Lives build request m w o h fresh r

released-Routed : (c : Controller) (leg : Option ℕ) → Routed leg c → Routed leg (released c)
released-Routed c none r = r
released-Routed c (some u) r = r

released-Valid : (c : Controller) (n m : ℕ) (l : List ℕ) → Valid c n m l → Valid (released c) n m l
released-Valid c n m l v = record {
  trunk = v.trunk;
  leg = v.leg;
  routed = released-Routed c c.ua_o v.routed;
  held = tt;
  waiting = v.waiting;
}

waiting-left_armed :
    (n : ℕ) (cs : List Controller) (l : List ℕ)
    → All (λ t. t < n) l
    → All (λ t. t < n) (left_armed cs l)
waiting-left_armed n [] l h = h
waiting-left_armed n (c ∷ cs) l h =
    waiting-left_armed n cs _ (waiting-still_armed n c.no_answer_timer l h)

All-released :
    (cs : List Controller) (n m : ℕ) (l : List ℕ)
    → All (λ (c : Controller). Valid c n m l) cs
    → All (λ (c : Controller). Valid c n m l) (map released cs)
All-released [] n m l h = tt
All-released (c ∷ cs) n m l h = (released-Valid c n m l h.0, All-released cs n m l h.1)

shut_down-Lives : (m : CallMap) (w : World) → AllValid m w → Lives w (dispose m w)
unfolding dispose
shut_down-Lives m w h =
    let v = after_all m.controllers w in
    let waiting = waiting-left_armed w.next_timer m.controllers w.armed h.0 in
    rw (dispose_each_lem m.controllers w) (
      refl,
      (
        waiting,
        All-released m.controllers w.next_ua w.next_timer v.armed
            (All-Valid-more m.controllers w v (omega arith) (omega arith) waiting h.1),
      ),
      omega arith,
      omega arith,
    )

-- The application keeps its side: what it builds has no leg and no timer yet, it decides completely,
-- and its fields for the log are not spelled like those of the log call.
abbrev pub IsProper : ProcessInput → Type 0
IsProper (arrives env build request) =
    IsTrunkLoggable env request × ((hop : Option (String × ℕ)) → IsFresh (build hop))
IsProper (reaches i env input) = IsApp env
IsProper shut_down = Unit

pub process_input-Lives :
    (input : ProcessInput) (m : CallMap) (w : World)
    → IsProper input
    → AllValid m w
    → Lives w (process_input input m w)
unfolding process_input
process_input-Lives (arrives env build request) m w p h =
    Screened-Lives build request m w _ h (p.1 m.global_config.nh_addr)
      (recv_request-Screened env build request m w p.0)
process_input-Lives (reaches i env input) m w p h = deliver-Good i env input m.controllers w p h
process_input-Lives shut_down m w p h = shut_down-Lives m w h

-- From a map whose calls are all in valid states, whatever arrives on the trunk, whatever sippy
-- delivers to which call, and however often all calls are disposed of, in any order: nothing is raised,
-- every call is in a valid state at the end, those that have been accepted meanwhile too, and the
-- numbers of the next UA and of the next timer have not fallen, if the application keeps its side: it
-- builds controllers without legs and timers, decides completely, and spells no field for the log like
-- the log call's own.
pub process_inputs-AllValid :
    (inputs : List ProcessInput) (m : CallMap) (w : World)
    → All IsProper inputs
    → AllValid m w
    → let (e, m', w') = process_inputs inputs m w in
      (e ≡ none) × AllValid m' w' × (w.next_ua ≤ w'.next_ua) × (w.next_timer ≤ w'.next_timer)
unfolding process_inputs
process_inputs-AllValid [] m w p h = (refl, h, omega arith, omega arith)
process_inputs-AllValid (input ∷ inputs) m w p h =
    let first = process_input-Lives input m w p.0 h in
    let (_, m', w') = process_input input m w in
    let rest = process_inputs-AllValid inputs m' w' p.1 first.1 in
    rw (first.0, process_inputs)
      (rest.0, rest.1, omega (arith, first.2, rest.2), omega (arith, first.3, rest.3))
