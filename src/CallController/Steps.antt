-- ===== src/CallController/Steps.antt =====
-- One call as a sequence of inputs from sippy, and the invariant that every input keeps.
use as_platform.Base.{
  ℕ, suc, ◌<◌, ◌≤◌, ◌≡◌, ◌≢◌, refl, Bool, List, [], ◌∷◌, ◌++◌, Option, none, some, arith, keep, All,
}
use as_platform.World.{M, None, ◌>>◌, pure, State, Env, CcEvent, NextHop, TryData, Controller}
use as_platform.CallController.{recv_event, timer_fires, dispose}
use as_platform.CallController.Attempt.{IsLoggable, Attempted, attempted}
use as_platform.CallController.Ending.{still_armed}
use as_platform.CallController.Failover.{FailedOver}
use as_platform.CallController.Spares.{Spares}
use as_platform.CallController.Trunk.{IsDecision}

-- What can happen to a call once its answering leg exists.
pub data Input : Type 0 where
  event : CcEvent → ℕ → Input
  fires : ℕ → Input
  stopped : Input

unfoldable pub perform : Env → Input → M None
perform env (event e ua) = recv_event env e ua
perform env (fires t) = timer_fires env t
perform env stopped = dispose

-- The environment may answer otherwise at each input.
unfoldable pub run : List (Env × Input) → M None
run [] = pure tt
run ((env, input) ∷ rest) = do perform env input; run rest

-- The application keeps its side: a relay names an event and a hop, a rejection its error.
abbrev pub IsApp : Env → Type 0
IsApp env = (event : TryData) → IsDecision (env.decide event).action (env.decide event)

abbrev pub Below : ℕ → Option ℕ → Type 0
Below n none = Unit {0}
Below n (some x) = x < n

abbrev pub IsLeg : Option ℕ → Option ℕ → ℕ → Type 0
IsLeg a none n = Unit {0}
IsLeg a (some b) n = (b < n) × (a ≢ some b)

-- Without a next-hop leg no hop is left over; with one, the serving hop is the one dialled, and the
-- event that a failover would send again is there.
abbrev pub Routed : Option ℕ → Controller → Type 0
Routed none c = c.failover_hops ≡ []
Routed (some u) c =
    (h : NextHop) × (c.serving_hop ≡ some h)
    × (c.next_hop ≡ some (h.address, h.port))
    × (p : TryData) × (c.pending_event ≡ some p)
    × IsLoggable c.policy

pub record Valid (c : Controller) (next_ua next_timer : ℕ) (armed : List ℕ) : Type 0 where
  pub trunk : (a : ℕ) × (c.ua_a ≡ some a) × (a < next_ua)
  pub leg : IsLeg c.ua_a c.ua_o next_ua
  pub routed : Routed c.ua_o c
  pub held : Below next_timer c.no_answer_timer
  pub waiting : All (λ t. t < next_timer) armed

abbrev pub IsValid : State → Type 0
IsValid s = Valid s.ctl s.world.next_ua s.world.next_timer s.world.armed

-- UAs and timers are never handed out twice.
abbrev pub Grows : State → State → Type 0
Grows s t = (s.world.next_ua ≤ t.world.next_ua) × (s.world.next_timer ≤ t.world.next_timer)

-- The timers of the other calls stay as they are.
abbrev pub Sparing : Option ℕ → State → State → Type 0
Sparing fired s t =
    Spares s.world.next_timer s.ctl.no_answer_timer s.world.armed fired t.ctl.no_answer_timer
      t.world.armed

-- The answering leg stays, and a new originating leg is one that was not handed out before.
abbrev pub Renews : State → State → Type 0
Renews s t =
    (t.ctl.ua_a ≡ s.ctl.ua_a)
    × ((x : ℕ) → x < s.world.next_ua → s.ctl.ua_o ≢ some x → t.ctl.ua_o ≢ some x)

-- The timer that an input stands for.
abbrev pub fired_by : Input → Option ℕ
fired_by (fires x) = some x
fired_by (event e ua) = none
fired_by stopped = none

-- What every input does to a call in a valid state.
abbrev pub Kept : Option ℕ → State → State → Type 0
Kept fired s t = IsValid t × Grows s t × Renews s t × Sparing fired s t

pub Valid-at :
    {c : Controller} {n m : ℕ} {l : List ℕ} (t : State)
    → t.ctl ≡ c
    → t.world.next_ua ≡ n
    → t.world.next_timer ≡ m
    → t.world.armed ≡ l
    → Valid c n m l
    → IsValid t
Valid-at t c n m l v = rw (c, n, m, l) v

waiting_more : (n : ℕ) (l : List ℕ) → All (λ t. t < n) l → All (λ t. t < suc n) (l ++ n ∷ [])
waiting_more n [] h = (omega arith, tt)
waiting_more n (x ∷ l) h = (omega arith, waiting_more n l h.1)

pub waiting_fewer :
    (n : ℕ) (test : ℕ → Bool) (l : List ℕ) → All (λ t. t < n) l → All (λ t. t < n) (keep test l)
waiting_fewer n test [] h = tt
waiting_fewer n test (x ∷ l) h = ground (arith, waiting_fewer n test l h.1)

pub waiting-still_armed :
    (n : ℕ) (o : Option ℕ) (l : List ℕ) → All (λ t. t < n) l → All (λ t. t < n) (still_armed o l)
waiting-still_armed n none l h = h
waiting-still_armed n (some t) l h = waiting_fewer n _ l h

-- A fresh attempt is valid, whatever the leg before it was.
attempted-Valid :
    (hop : NextHop) (p : TryData) (s : State)
    → (a : ℕ) × (s.ctl.ua_a ≡ some a) × (a < s.world.next_ua)
    → s.ctl.pending_event ≡ some p
    → IsLoggable s.ctl.policy
    → All (λ t. t < s.world.next_timer) s.world.armed
    → Valid
        (attempted hop s)
        (suc s.world.next_ua)
        (suc s.world.next_timer)
        (s.world.armed ++ s.world.next_timer ∷ [])
attempted-Valid hop p s (a, e, lt) pending words w = record {
  trunk = (a, e, omega arith);
  leg = (omega arith, λ same. ground arith);
  routed = (hop, refl, refl, p, pending, words);
  held = omega arith;
  waiting = waiting_more s.world.next_timer s.world.armed w;
}

pub Attempted-IsValid :
    (hop : NextHop) (p : TryData) (s t : State)
    → (a : ℕ) × (s.ctl.ua_a ≡ some a) × (a < s.world.next_ua)
    → s.ctl.pending_event ≡ some p
    → IsLoggable s.ctl.policy
    → All (λ t. t < s.world.next_timer) s.world.armed
    → Attempted hop p s t
    → IsValid t
Attempted-IsValid hop p s t a pending words w (c, _, armed, ua, timer, _) =
    Valid-at t c ua timer armed (attempted-Valid hop p s a pending words w)

pub FailedOver-IsValid :
    (hop : NextHop) (rest : List NextHop) (p : TryData) (s t : State)
    → IsValid s
    → s.ctl.pending_event ≡ some p
    → IsLoggable s.ctl.policy
    → FailedOver hop rest p s t
    → IsValid t
FailedOver-IsValid hop rest p s t v pending words (c, _, armed, ua, timer, _) =
    let fresh = attempted-Valid hop p s v.trunk pending words v.waiting in
    Valid-at t c ua timer armed (record {
      trunk = fresh.trunk;
      leg = fresh.leg;
      routed = fresh.routed;
      held = tt;
      waiting = waiting_fewer (suc s.world.next_timer) _ _ fresh.waiting;
    })

pub cancelled-Valid :
    (s : State)
    → IsValid s
    → Valid
        (record s.ctl { no_answer_timer = none })
        s.world.next_ua
        s.world.next_timer
        (still_armed s.ctl.no_answer_timer s.world.armed)
cancelled-Valid s v = record {
  trunk = v.trunk;
  leg = v.leg;
  routed = elim_routed s.ctl.ua_o v.routed;
  held = tt;
  waiting = waiting-still_armed s.world.next_timer s.ctl.no_answer_timer s.world.armed v.waiting;
}
  where
    elim_routed :
        (leg : Option ℕ) → Routed leg s.ctl → Routed leg (record s.ctl { no_answer_timer = none })
    elim_routed none r = r
    elim_routed (some u) r = r
