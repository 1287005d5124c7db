-- ===== src/CallMap/Process/Isolation.antt =====
-- What other calls do leaves a call and its no-answer timer alone.
use as_platform.Base.{
  ℕ, zero, suc, ◌<◌, ◌≡◌, ◌∙◌, ap, inl, inr, subst, true, String, List, [], ◌∷◌, Option, none, some,
  arith, All,
}
use as_platform.World.{World, Controller, Request}
use as_platform.CallController.Spares.{is_armed}
use as_platform.CallController.Steps.{Valid, Below}
use as_platform.CallMap.{CallMap, Outcome}
use as_platform.CallMap.Screening.{IsFresh, Refused, Screened, recv_request-Screened}
use as_platform.CallMap.Process.{
  ProcessInput, arrives, reaches, shut_down, Process, after_request, process_input, process_inputs,
}
use as_platform.CallMap.Process.Apart.{Separate, Apart, process_inputs-Apart}
use as_platform.CallMap.Process.Delivery.{AllValid}
use as_platform.CallMap.Process.Lives.{IsProper, process_input-Lives, process_inputs-AllValid}
use as_platform.CallMap.Process.Elsewhere.{
  Free, Alone, IsElsewhere, StillArmed, deliver-Alone, Alone-snoc,
}

-- The call is where it was, and its timer is armed if it was.
abbrev Undisturbed : ℕ → ℕ → Controller → World → Process → Type 0
Undisturbed t i c w r = Alone c t i r.1.controllers × StillArmed t w r.2

Refused-Undisturbed :
    (t i code : ℕ) (c : Controller) (m : CallMap) (w : World) (o : Outcome)
    → Alone c t i m.controllers
    → Refused code m w o
    → Undisturbed t i c w (after_request o)
Refused-Undisturbed t i code c m w o h (reason, v, e, _, armed, _, _, _) =
    rw e (h, rw armed (λ a. a))

Screened-Undisturbed :
    (t i : ℕ) (c : Controller) (build : Option (String × ℕ) → Controller) (request : Request)
    (m : CallMap) (w : World) (o : Outcome)
    → Alone c t i m.controllers
    → IsFresh (build m.global_config.nh_addr)
    → Screened build request m w o
    → Undisturbed t i c w (after_request o)
Screened-Undisturbed t i c build request m w o h fresh (inl (_, r)) =
    Refused-Undisturbed t i 403 c m w o h r
Screened-Undisturbed t i c build request m w o h fresh (inr (inl (_, _, _, r))) =
    Refused-Undisturbed t i 481 c m w o h r
Screened-Undisturbed t i c build request m w o h fresh (inr (inr (inl (_, _, _, r)))) =
    Refused-Undisturbed t i 501 c m w o h r
Screened-Undisturbed t i c build request m w o h fresh
      (inr (inr (inr (_, _, _, (s, e, (ctl, _, _, _, armed, _, _)))))) =
    rw e (Alone-snoc t i c m.controllers s.ctl h (λ x. cc), rw armed (λ a. a))

process_input-Undisturbed :
    (t i : ℕ) (c : Controller) (input : ProcessInput) (m : CallMap) (w : World)
    → IsProper input
    → IsElsewhere i t input
    → AllValid m w
    → t < w.next_timer
    → Alone c t i m.controllers
    → Undisturbed t i c w (process_input input m w)
unfolding process_input
process_input-Undisturbed t i c (arrives env build request) m w p away v lt h =
    Screened-Undisturbed t i c build request m w _ h (p.1 m.global_config.nh_addr)
      (recv_request-Screened env build request m w p.0)
process_input-Undisturbed t i c (reaches j env input) m w p away v lt h =
    deliver-Alone t env input p away.1 i j c m.controllers w away.0 v lt h
process_input-Undisturbed t i c shut_down m w p away v lt h = absurd away

Undisturbed-All :
    (t i : ℕ) (c : Controller) (inputs : List ProcessInput) (m : CallMap) (w : World)
    → All IsProper inputs
    → All (IsElsewhere i t) inputs
    → AllValid m w
    → t < w.next_timer
    → Alone c t i m.controllers
    → Undisturbed t i c w (let (_, m', w') = process_inputs inputs m w in (none, m', w'))
unfolding process_inputs
Undisturbed-All t i c [] m w p away v lt h = (h, λ a. a)
Undisturbed-All t i c (input ∷ inputs) m w p away v lt h =
    let lives = process_input-Lives input m w p.0 v in
    let first = process_input-Undisturbed t i c input m w p.0 away.0 v lt h in
    let (_, m', w') = process_input input m w in
    let rest =
      Undisturbed-All t i c inputs m' w' p.1 away.1 lives.1 (omega (arith, lives.3)) first.0 in
    rw (lives.0, process_inputs) (rest.0, λ a. rest.1 (first.1 a))

-- A valid call holds a timer that has been handed out.
held-below :
    (t i n a : ℕ) (c : Controller) (cs : List Controller) (l : List ℕ)
    → All (λ (x : Controller). Valid x a n l) cs
    → c.no_answer_timer ≡ some t
    → Alone c t i cs
    → t < n
held-below t i n a c [] l v held h = absurd h
held-below t zero n a c (x ∷ cs) l v held h =
    subst (Below n) (ap (λ (y : Controller). y.no_answer_timer) h.0 ∙ held) v.0.held
held-below t (suc i) n a c (x ∷ cs) l v held h = held-below t i n a c cs l v.1 held h.1

-- The call with this number is this one.
abbrev pub At : Controller → ℕ → List Controller → Type 0
At c i [] = ⊥
At c zero (x ∷ cs) = x ≡ c
At c (suc i) (x ∷ cs) = At c i cs

Alone-At : (c : Controller) (t i : ℕ) (cs : List Controller) → Alone c t i cs → At c i cs
Alone-At c t i [] h = h
Alone-At c t zero (x ∷ cs) h = h.0
Alone-At c t (suc i) (x ∷ cs) h = Alone-At c t i cs h.1

All-Free :
    (t : ℕ) (c : Controller) (cs : List Controller)
    → c.no_answer_timer ≡ some t
    → All (Separate c) cs
    → All (Free t) cs
All-Free t c [] e h = tt
All-Free t c (d ∷ cs) e h = (h.0.0 t e, All-Free t c cs e h.1)

Separate-At :
    (b c : Controller) (i : ℕ) (cs : List Controller)
    → At c i cs
    → All (Separate b) cs
    → Separate b c
Separate-At b c i [] here h = absurd here
Separate-At b c zero (x ∷ cs) here h = subst (Separate b) here h.0
Separate-At b c (suc i) (x ∷ cs) here h = Separate-At b c i cs here h.1

Apart-Alone :
    (c : Controller) (t i : ℕ) (cs : List Controller)
    → c.no_answer_timer ≡ some t
    → At c i cs
    → Apart cs
    → Alone c t i cs
Apart-Alone c t i [] e here h = here
Apart-Alone c t zero (x ∷ cs) e here h =
    (here, All-Free t x cs (ap (λ (y : Controller). y.no_answer_timer) here ∙ e) h.0)
Apart-Alone c t (suc i) (x ∷ cs) e here h =
    (λ held. (Separate-At x c i cs here h.0).0 t held e, Apart-Alone c t i cs e here h.1)

-- From a map whose calls are all in valid states, no two of which have the same timer or the same
-- UA: while requests arrive, and events, timers and disposals reach other calls, in any order and
-- number, a call whose no-answer timer is armed and is not the one that fires stays in its place as
-- it was, its timer stays armed, still no two calls have the same timer or the same UA, and nothing
-- is raised, if the application keeps its side: it builds controllers without legs and timers,
-- decides completely, and spells no field for the log like the log call's own.
pub process_inputs-At :
    (t i : ℕ) (c : Controller) (inputs : List ProcessInput) (m : CallMap) (w : World)
    → All IsProper inputs
    → All (IsElsewhere i t) inputs
    → AllValid m w
    → Apart m.controllers
    → At c i m.controllers
    → c.no_answer_timer ≡ some t
    → is_armed t w.armed ≡ true
    → let (e, m', w') = process_inputs inputs m w in
      (e ≡ none) × At c i m'.controllers × Apart m'.controllers × (is_armed t w'.armed ≡ true)
process_inputs-At t i c inputs m w p away v apart here held armed =
    let h = Apart-Alone c t i m.controllers held here apart in
    let lt = held-below t i w.next_timer w.next_ua c m.controllers w.armed v.1 held h in
    let rest = Undisturbed-All t i c inputs m w p away v lt h in
    (
      (process_inputs-AllValid inputs m w p v).0,
      Alone-At c t i _ rest.0,
      process_inputs-Apart inputs m w p v apart,
      rest.1 armed,
    )
