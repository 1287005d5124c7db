-- ===== src/CallController/Timers.antt =====
-- The no-answer timer across a failover.
use as_platform.Base.{
  ℕ, ◌<◌, ◌≡◌, ◌≢◌, refl, sym, ap, subst, ◌∙◌, true, false, not, List, [], ◌∷◌, ◌++◌, Option, none,
  some, arith, eqb, keep, All,
}
use as_platform.World.{◌>>◌, State, Env, CcEvent, NextHop, Controller, log_event, disconnect_ua}
use as_platform.CallController.{
  relay_from_next_hop, dispose, ends, is_connected, disarm, timer_fires, on_next_hop_no_answer,
  give_up_on,
}
use as_platform.CallController.Attempt.{Returns, Returns-bind, Returns-mono}
use as_platform.CallController.Ending.{cancel_no_answer_timer_lem, still_armed}
use as_platform.CallController.Failover.{FailedOver, relay_from_next_hop-FailedOver}
use as_platform.CallController.Spares.{is_armed}
use as_platform.CallController.Steps.{IsValid, Routed}

keep_below : (n : ℕ) (l : List ℕ) → All (λ t. t < n) l → keep (λ x. not (eqb x n)) (l ++ n ∷ []) ≡ l
keep_below n [] h = ground arith
keep_below n (x ∷ l) h = ground (arith, keep_below n l h.1)

-- The new leg is served, no timer is held for it, and what was armed before still is.
abbrev pub Unwatched : NextHop → State → State → Type 0
Unwatched hop s t =
    (t.ctl.ua_o ≡ some s.world.next_ua)
    × (t.ctl.serving_hop ≡ some hop)
    × (t.ctl.no_answer_timer ≡ none)
    × (t.world.armed ≡ s.world.armed)
    × (t.ctl.ua_a ≡ s.ctl.ua_a)

module _ (env : Env) (e : CcEvent) (hop : NextHop) (rest : List NextHop) (s : State) (ua : ℕ) where
  -- When a failure or a release of the next-hop leg of a valid state, while the call is not connected
  -- and a hop remains, has made an attempt at that hop, the controller serves the new leg but holds no
  -- timer for it, and no timer is newly armed: the handler cancels the timer of the new attempt. The
  -- timers that were armed before, that of the failed attempt among them if it was, stay armed.
  pub failover-Unwatched :
      ends e ≡ true
      → is_connected env s.ctl.ua_a ≡ false
      → s.ctl.failover_hops ≡ hop ∷ rest
      → IsValid s
      → s.ctl.ua_o ≡ some ua
      → Returns (λ _. Unwatched hop s) (relay_from_next_hop env e s)
  failover-Unwatched over idle more v leg =
      let (_, _, _, p, pending, words) = subst (λ l. Routed l s.ctl) leg v.routed in
      Returns-mono {P = λ _. FailedOver hop rest p s} _ _
        (relay_from_next_hop-FailedOver env e hop rest p s over idle more pending words)
        λ _ t r. (
          ap (λ (c : Controller). c.ua_o) r.0,
          ap (λ (c : Controller). c.serving_hop) r.0,
          ap (λ (c : Controller). c.no_answer_timer) r.0,
          r.2 ∙ keep_below s.world.next_timer s.world.armed v.waiting,
          ap (λ (c : Controller). c.ua_a) r.0,
        )

  -- Disposing of a call right after such a failover leaves armed exactly the timers that were armed
  -- before the failover.
  pub dispose-after_failover :
      ends e ≡ true
      → is_connected env s.ctl.ua_a ≡ false
      → s.ctl.failover_hops ≡ hop ∷ rest
      → IsValid s
      → s.ctl.ua_o ≡ some ua
      → Returns (λ _ t. t.world.armed ≡ s.world.armed) ((do relay_from_next_hop env e; dispose) s)
  unfolding dispose
  dispose-after_failover over idle more v leg =
      Returns-bind {P = λ _. Unwatched hop s} (λ _ t. t.world.armed ≡ s.world.armed)
        (relay_from_next_hop env e) (λ _. dispose) s (failover-Unwatched over idle more v leg)
        λ _ t r.
          subst (Returns (λ _ u. u.world.armed ≡ s.world.armed))
            (sym (cancel_no_answer_timer_lem t))
            (ap (λ (o : Option ℕ). still_armed o t.world.armed) r.2 ∙ r.3)

  -- Once the timer fires: the new leg is released, and nothing else is asked of sippy.
  abbrev Releases : ℕ → State → Type 0
  Releases timer t =
      Returns (λ _ u. u.world.sippy ≡ t.world.sippy ++ disconnect_ua s.world.next_ua ∷ [])
        (timer_fires env timer t)

  -- The timer is armed, the controller holds another or none, and the new leg is what it releases.
  abbrev pub LeftArmed : ℕ → State → Type 0
  LeftArmed timer t =
      (is_armed timer t.world.armed ≡ true)
      × (t.ctl.no_answer_timer ≢ some timer)
      × (t.ctl.ua_o ≡ some s.world.next_ua)
      × Releases timer t

  released :
      (timer : ℕ) (t : State)
      → Unwatched hop s t
      → is_connected env s.ctl.ua_a ≡ false
      → Releases timer t
  unfolding timer_fires on_next_hop_no_answer
  released timer t (new, _, _, _, same) idle =
      let quiet : is_connected env t.ctl.ua_a ≡ false = rw same idle in
      subst
        (λ leg.
          Returns (λ _ u. u.world.sippy ≡ t.world.sippy ++ disconnect_ua s.world.next_ua ∷ [])
            (give_up_on env leg (record t { world = disarm timer t.world })))
        (sym new) (unfold give_up_on log_event in rw quiet refl)

  -- When such a failover has taken place while the timer of the failed attempt was held and armed, that
  -- timer is still armed, the controller holds it no more, and its next-hop leg is the new one. When
  -- the timer fires then, the controller asks sippy to disconnect the new leg, and nothing else. The
  -- event that sippy emits for the disconnect is not part of this.
  pub stale_timer-releases :
      (timer : ℕ)
      → ends e ≡ true
      → is_connected env s.ctl.ua_a ≡ false
      → s.ctl.failover_hops ≡ hop ∷ rest
      → IsValid s
      → s.ctl.ua_o ≡ some ua
      → s.ctl.no_answer_timer ≡ some timer
      → is_armed timer s.world.armed ≡ true
      → Returns (λ _. LeftArmed timer) (relay_from_next_hop env e s)
  stale_timer-releases timer over idle more v leg held armed =
      Returns-mono {P = λ _. Unwatched hop s} (λ _. LeftArmed timer) (relay_from_next_hop env e s)
        (failover-Unwatched over idle more v leg)
        λ _ t r. (ap (is_armed timer) r.3 ∙ armed, λ same. cc, r.0, released timer t r idle)
