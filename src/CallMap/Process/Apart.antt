-- ===== src/CallMap/Process/Apart.antt =====
-- No two calls of a process have the same no-answer timer or the same UA.
use as_platform.Base.{
  refl, arith, ℕ, zero, suc, ◌<◌, ◌≡◌, ◌≢◌, subst, String, List, [], ◌∷◌, ◌++◌, map, Option, none,
  some, inl, inr, All,
}
use as_platform.World.{State, Result, ok, raised, None, World, Env, Controller, Request}
use as_platform.CallController.Attempt.{Returns}
use as_platform.CallController.Steps.{
  Renews, IsLeg, Input, IsApp, Valid, Kept, Sparing, fired_by, Below,
}
use as_platform.CallController.Keeps.{perform-Kept}
use as_platform.CallMap.{CallMap, Outcome, dispose}
use as_platform.CallMap.Screening.{IsFresh, Screened, recv_request-Screened}
use as_platform.CallMap.Shutdown.{released, dispose_each_lem}
use as_platform.CallMap.Process.{
  ProcessInput, arrives, reaches, shut_down, settled, deliver, after_request, process_input,
  process_inputs,
}
use as_platform.CallMap.Process.Delivery.{AllValid}
use as_platform.CallMap.Process.Lives.{IsProper, process_input-Lives}

-- A UA or a timer that the one has, the other has not.
abbrev Differ : Option ℕ → Option ℕ → Type 0
Differ a b = (x : ℕ) → a ≡ some x → b ≢ some x

-- Two calls that have no timer and no UA in common.
abbrev pub Separate : Controller → Controller → Type 0
Separate c d =
    Differ c.no_answer_timer d.no_answer_timer
    × Differ c.ua_a d.ua_a
    × Differ c.ua_a d.ua_o
    × Differ c.ua_o d.ua_a
    × Differ c.ua_o d.ua_o

abbrev pub Apart : List Controller → Type 0
Apart [] = Unit {0}
Apart (c ∷ cs) = All (Separate c) cs × Apart cs

Differ-sym : (a b : Option ℕ) → Differ a b → Differ b a
Differ-sym a b h x e f = h x f e

Separate-sym : (c d : Controller) → Separate c d → Separate d c
Separate-sym c d (timers, aa, ao, oa, oo) = (
  Differ-sym c.no_answer_timer d.no_answer_timer timers,
  Differ-sym c.ua_a d.ua_a aa,
  Differ-sym c.ua_o d.ua_a oa,
  Differ-sym c.ua_a d.ua_o ao,
  Differ-sym c.ua_o d.ua_o oo,
)

below_held :
    (c : Controller) (n m x : ℕ) (l : List ℕ) → Valid c n m l → c.no_answer_timer ≡ some x → x < m
below_held c n m x l v e = subst (Below m) e v.held

below_trunk : (c : Controller) (n m x : ℕ) (l : List ℕ) → Valid c n m l → c.ua_a ≡ some x → x < n
below_trunk c n m x l v e = let (a, same, lt) = v.trunk in ground arith

below_leg : (c : Controller) (n m x : ℕ) (l : List ℕ) → Valid c n m l → c.ua_o ≡ some x → x < n
below_leg c n m x l v e = (subst (λ o. IsLeg c.ua_a o n) e v.leg).0

-- What a call does, it does to timers and UAs that no other call has.
Separate-after :
    (fired : Option ℕ) (s t : State) (d : Controller)
    → Renews s t
    → Sparing fired s t
    → Valid d s.world.next_ua s.world.next_timer s.world.armed
    → Separate d s.ctl
    → Separate d t.ctl
Separate-after fired s t d (same, fresh) spares v (timers, aa, ao, oa, oo) = (
  λ x e. (spares x (below_held d _ _ x _ v e) (timers x e)).0,
  rw same aa,
  λ x e. fresh x (below_trunk d _ _ x _ v e) (ao x e),
  rw same oa,
  λ x e. fresh x (below_leg d _ _ x _ v e) (oo x e),
)

All-after :
    (fired : Option ℕ) (s t : State) (cs : List Controller)
    → Renews s t
    → Sparing fired s t
    → All (λ (d : Controller). Valid d s.world.next_ua s.world.next_timer s.world.armed) cs
    → All (Separate s.ctl) cs
    → All (Separate t.ctl) cs
All-after fired s t [] renews spares v h = tt
All-after fired s t (d ∷ cs) renews spares v h = (
  Separate-sym d t.ctl (Separate-after fired s t d renews spares v.0 (Separate-sym s.ctl d h.0)),
  All-after fired s t cs renews spares v.1 h.1,
)

module _ (env : Env) (input : Input) (app : IsApp env) where
  deliver-Separate :
      (d : Controller) (j : ℕ) (cs : List Controller) (w : World)
      → Valid d w.next_ua w.next_timer w.armed
      → All (λ (c : Controller). Valid c w.next_ua w.next_timer w.armed) cs
      → All (Separate d) cs
      → All (Separate d) (deliver j env input cs w).1
  unfolding deliver
  deliver-Separate d j [] w v vs h = tt
  deliver-Separate d zero (c ∷ cs) w v vs h =
      go _ (perform-Kept env input (record { world = w; ctl = c }) app vs.0)
    where
      go :
          (r : Result None)
          → Returns (λ _. Kept (fired_by input) (record { world = w; ctl = c })) r
          → All (Separate d) (settled cs r).1
      go (ok _ s) (_, _, renews, spares) = (
        Separate-after (fired_by input) (record { world = w; ctl = c }) s d renews spares v h.0,
        h.1,
      )
      go (raised e s) k = absurd k
  deliver-Separate d (suc j) (c ∷ cs) w v vs h = (h.0, deliver-Separate d j cs w v vs.1 h.1)

  deliver-Apart :
      (j : ℕ) (cs : List Controller) (w : World)
      → All (λ (c : Controller). Valid c w.next_ua w.next_timer w.armed) cs
      → Apart cs
      → Apart (deliver j env input cs w).1
  unfolding deliver
  deliver-Apart j [] w vs h = tt
  deliver-Apart zero (c ∷ cs) w vs h =
      go _ (perform-Kept env input (record { world = w; ctl = c }) app vs.0)
    where
      go :
          (r : Result None)
          → Returns (λ _. Kept (fired_by input) (record { world = w; ctl = c })) r
          → Apart (settled cs r).1
      go (ok _ s) (_, _, renews, spares) = (
        All-after (fired_by input) (record { world = w; ctl = c }) s cs renews spares vs.1 h.0,
        h.1,
      )
      go (raised e s) k = absurd k
  deliver-Apart (suc j) (c ∷ cs) w vs h =
      (deliver-Separate c j cs w vs.0 vs.1 h.0, deliver-Apart j cs w vs.1 h.1)

-- A call with nothing but a new UA is apart from all.
abbrev Fresh : ℕ → Controller → Type 0
Fresh n d = (d.no_answer_timer ≡ none) × (d.ua_a ≡ some n) × (d.ua_o ≡ none)

Separate-Fresh :
    (c d : Controller) (n m : ℕ) (l : List ℕ) → Valid c n m l → Fresh n d → Separate c d
Separate-Fresh c d n m l v (timer, trunk, leg) = (
  λ x e f. cc,
  λ x e f. let lt = below_trunk c n m x l v e in ground arith,
  λ x e f. cc,
  λ x e f. let lt = below_leg c n m x l v e in ground arith,
  λ x e f. cc,
)

Apart-snoc :
    (cs : List Controller) (d : Controller) (n m : ℕ) (l : List ℕ)
    → All (λ (c : Controller). Valid c n m l) cs
    → Fresh n d
    → Apart cs
    → Apart (cs ++ d ∷ [])
Apart-snoc [] d n m l v f h = (tt, tt)
Apart-snoc (c ∷ cs) d n m l v f h = (more cs h.0, Apart-snoc cs d n m l v.1 f h.1)
  where
    more : (cs : List Controller) → All (Separate c) cs → All (Separate c) (cs ++ d ∷ [])
    more [] h = (Separate-Fresh c d n m l v.0 f, tt)
    more (b ∷ cs) h = (h.0, more cs h.1)

Apart-released : (cs : List Controller) → Apart cs → Apart (map released cs)
Apart-released [] h = tt
Apart-released (c ∷ cs) h = (legs cs h.0, Apart-released cs h.1)
  where
    legs :
        (cs : List Controller) → All (Separate c) cs → All (Separate (released c)) (map released cs)
    legs [] h = tt
    legs (b ∷ cs) h = ((λ x e f. cc, h.0.1, h.0.2, h.0.3, h.0.4), legs cs h.1)

Screened-Apart :
    (build : Option (String × ℕ) → Controller) (request : Request) (m : CallMap) (w : World)
    (o : Outcome)
    → AllValid m w
    → Apart m.controllers
    → IsFresh (build m.global_config.nh_addr)
    → Screened build request m w o
    → Apart (after_request o).1.controllers
Screened-Apart build request m w o v h fresh (inl (_, (_, _, e, _, _, _, _, _))) = rw e h
Screened-Apart build request m w o v h fresh (inr (inl (_, _, _, (_, _, e, _, _, _, _, _)))) =
    rw e h
Screened-Apart build request m w o v h fresh (inr (inr (inl (_, _, _, (_, _, e, _, _, _, _, _))))) =
    rw e h
Screened-Apart build request m w o v h fresh
      (inr (inr (inr (_, _, _, (s, e, (ctl, _, _, _, _, _, _)))))) =
    rw e (
      Apart-snoc m.controllers s.ctl w.next_ua w.next_timer w.armed v.1
        (rw ctl (fresh.2, refl, fresh.0)) h)

process_input-Apart :
    (input : ProcessInput) (m : CallMap) (w : World)
    → IsProper input
    → AllValid m w
    → Apart m.controllers
    → Apart (process_input input m w).1.controllers
unfolding process_input dispose
process_input-Apart (arrives env build request) m w p v h =
    Screened-Apart build request m w _ v h (p.1 m.global_config.nh_addr)
      (recv_request-Screened env build request m w p.0)
process_input-Apart (reaches j env input) m w p v h =
    deliver-Apart env input p j m.controllers w v.1 h
process_input-Apart shut_down m w p v h =
    rw (dispose_each_lem m.controllers w) (Apart-released m.controllers h)

pub process_inputs-Apart :
    (inputs : List ProcessInput) (m : CallMap) (w : World)
    → All IsProper inputs
    → AllValid m w
    → Apart m.controllers
    → Apart (process_inputs inputs m w).1.controllers
unfolding process_inputs
process_inputs-Apart [] m w p v h = h
process_inputs-Apart (input ∷ inputs) m w p v h =
    let lives = process_input-Lives input m w p.0 v in
    let first = process_input-Apart input m w p.0 v h in
    let (_, m', w') = process_input input m w in
    rw (lives.0, process_inputs) (process_inputs-Apart inputs m' w' p.1 lives.1 first)
