-- ===== src/CallMap/Process/Elsewhere.antt =====
-- What reaches one call leaves another and its timer alone.
use as_platform.Base.{
  ℕ, zero, suc, ◌<◌, ◌≡◌, ◌≢◌, refl, true, List, [], ◌∷◌, ◌++◌, some, arith, All,
}
use as_platform.World.{Result, ok, raised, None, World, Env, Controller}
use as_platform.CallController.Attempt.{Returns}
use as_platform.CallController.Spares.{is_armed}
use as_platform.CallController.Steps.{Input, IsApp, Valid, Kept, fired_by}
use as_platform.CallController.Keeps.{perform-Kept}
use as_platform.CallMap.Process.{ProcessInput, arrives, reaches, shut_down, Calls, settled, deliver}
use as_platform.CallMap.Process.Delivery.{CallsValid}

abbrev pub Free : ℕ → Controller → Type 0
Free t c = c.no_answer_timer ≢ some t

-- The call with this number is this one, and no other call holds the timer.
abbrev pub Alone : Controller → ℕ → ℕ → List Controller → Type 0
Alone c t i [] = ⊥
Alone c t zero (x ∷ cs) = (x ≡ c) × All (Free t) cs
Alone c t (suc i) (x ∷ cs) = Free t x × Alone c t i cs

-- A request that arrives, or what reaches another call and is not this timer.
abbrev pub IsElsewhere : ℕ → ℕ → ProcessInput → Type 0
IsElsewhere i t (arrives env build request) = Unit
IsElsewhere i t (reaches j env input) = (j ≢ i) × (fired_by input ≢ some t)
IsElsewhere i t shut_down = ⊥

-- The timer is still armed if it was.
abbrev pub StillArmed : ℕ → World → World → Type 0
StillArmed t w v = is_armed t w.armed ≡ true → is_armed t v.armed ≡ true

-- The call that was reached holds another timer or none, and the others are as they were.
abbrev Reached : ℕ → World → List Controller → Calls → Type 0
Reached t w cs r = (c : Controller) × (r.1 ≡ c ∷ cs) × Free t c × StillArmed t w r.2

module _ (t : ℕ) (env : Env) (input : Input) (app : IsApp env)
    (kept : fired_by input ≢ some t) where
  pub reached :
      (c : Controller) (cs : List Controller) (w : World)
      → Valid c w.next_ua w.next_timer w.armed
      → t < w.next_timer
      → Free t c
      → Reached t w cs (deliver zero env input (c ∷ cs) w)
  unfolding deliver
  reached c cs w v lt free = go _ (perform-Kept env input (record { world = w; ctl = c }) app v)
    where
      go :
          (r : Result None)
          → Returns (λ _. Kept (fired_by input) (record { world = w; ctl = c })) r
          → Reached t w cs (settled cs r)
      go (ok _ s) (_, _, _, spares) =
          let (still_free, still) = spares t lt free in (s.ctl, refl, still_free, still kept)
      go (raised e s) k = absurd k

  deliver-Free :
      (j : ℕ) (cs : List Controller) (w : World)
      → CallsValid cs w
      → t < w.next_timer
      → All (Free t) cs
      → All (Free t) (deliver j env input cs w).1 × StillArmed t w (deliver j env input cs w).2
  unfolding deliver
  deliver-Free j [] w v lt h = (tt, λ a. a)
  deliver-Free zero (x ∷ cs) w v lt h =
      let (c, e, free, still) = reached x cs w v.1.0 lt h.0 in rw e ((free, h.1), still)
  deliver-Free (suc j) (x ∷ cs) w v lt h =
      let rest = deliver-Free j cs w (v.0, v.1.1) lt h.1 in ((h.0, rest.0), rest.1)

  pub deliver-Alone :
      (i j : ℕ) (c : Controller) (cs : List Controller) (w : World)
      → j ≢ i
      → CallsValid cs w
      → t < w.next_timer
      → Alone c t i cs
      → Alone c t i (deliver j env input cs w).1 × StillArmed t w (deliver j env input cs w).2
  unfolding deliver
  deliver-Alone i j c [] w other v lt h = absurd h
  deliver-Alone zero zero c (x ∷ cs) w other v lt h = absurd (other refl)
  deliver-Alone zero (suc j) c (x ∷ cs) w other v lt h =
      let rest = deliver-Free j cs w (v.0, v.1.1) lt h.1 in ((h.0, rest.0), rest.1)
  deliver-Alone (suc i) zero c (x ∷ cs) w other v lt h =
      let (y, e, free, still) = reached x cs w v.1.0 lt h.0 in rw e ((free, h.1), still)
  deliver-Alone (suc i) (suc j) c (x ∷ cs) w other v lt h =
      let rest = deliver-Alone i j c cs w (λ e. other (omega arith)) (v.0, v.1.1) lt h.1 in
      ((h.0, rest.0), rest.1)

Free-snoc :
    (t : ℕ) (cs : List Controller) (d : Controller)
    → All (Free t) cs
    → Free t d
    → All (Free t) (cs ++ d ∷ [])
Free-snoc t [] d h free = (free, tt)
Free-snoc t (x ∷ cs) d h free = (h.0, Free-snoc t cs d h.1 free)

pub Alone-snoc :
    (t i : ℕ) (c : Controller) (cs : List Controller) (d : Controller)
    → Alone c t i cs
    → Free t d
    → Alone c t i (cs ++ d ∷ [])
Alone-snoc t i c [] d h free = absurd h
Alone-snoc t zero c (x ∷ cs) d h free = (h.0, Free-snoc t cs d h.1 free)
Alone-snoc t (suc i) c (x ∷ cs) d h free = (h.0, Alone-snoc t i c cs d h.1 free)
