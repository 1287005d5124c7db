-- ===== src/CallController/Walk.antt =====
-- The failover walk: a call whose every hop fails.
use mathlib.Core.List.{append_assoc, append-nil}
use as_platform.Base.{
  ℕ, ◌<◌, ◌≡◌, ◌≢◌, inr, refl, sym, ap, ◌∙◌, subst, true, false, List, [], ◌∷◌, ◌++◌, Option, none,
  some, map, arith, All, length,
}
use as_platform.World.{
  M, None, ◌>>=◌, ◌>>◌, pure, self, State, Env, CcEvent, NextHop, TryData, SipConf, Controller,
}
use as_platform.CallController.{recv_event, relay_from_next_hop, is_ua, is_connected, ends}
use as_platform.CallController.Attempt.{Returns, Returns-bind, Returns-mono, attempt_calls}
use as_platform.CallController.Ending.{Ended, cancel_calls, told, relay_from_next_hop-Ended}
use as_platform.CallController.Failover.{FailedOver, relay_from_next_hop-FailedOver}
use as_platform.CallController.Steps.{IsValid, IsLeg, Routed, FailedOver-IsValid}
use as_platform.CallController.Calls.{dialled, handed, address, dialled-append, handed-append}

-- An event of the next-hop leg of the moment.
unfoldable pub deliver : Env → CcEvent → Option ℕ → M None
deliver env e none = pure tt
deliver env e (some ua) = recv_event env e ua

unfoldable pub from_leg : Env → CcEvent → M None
from_leg env e = do c ← self; deliver env e c.ua_o

unfoldable pub from_legs : Env → List CcEvent → M None
from_legs env [] = pure tt
from_legs env (e ∷ es) = do from_leg env e; from_legs env es

is_ua-false : (ua : ℕ) (leg : Option ℕ) → leg ≢ some ua → is_ua ua leg ≡ false
unfolding is_ua
is_ua-false ua none h = refl
is_ua-false ua (some l) h = ground arith

from_leg-relay :
    (env : Env) (e : CcEvent) (s : State) (ua : ℕ)
    → IsValid s
    → s.ctl.ua_o ≡ some ua
    → from_leg env e s ≡ relay_from_next_hop env e s
unfolding from_leg recv_event
from_leg-relay env e s ua v leg =
    let apart = (subst (λ l. IsLeg s.ctl.ua_a l s.world.next_ua) leg v.leg).1 in
    let mine : is_ua ua s.ctl.ua_o ≡ true =
      subst (λ l. is_ua ua l ≡ true) (sym leg) (unfold is_ua in ground arith) in
    ap (λ l. deliver env e l s) leg ∙ unfold deliver in rw (is_ua-false ua s.ctl.ua_a apart, mine)

-- The trunk leg hears of the last failure only, and every hop was dialled once, in order.
abbrev pub Exhausted : List NextHop → CcEvent → ℕ → State → State → Type 0
Exhausted hops e a s t =
    (dialled t.world.sippy ≡ dialled s.world.sippy ++ map address hops)
    × (handed a t.world.sippy ≡ handed a s.world.sippy ++ e ∷ [])
    × (t.ctl.no_answer_timer ≡ none)

silent_cancel :
    (a : ℕ) (o : Option ℕ) → (dialled (cancel_calls o) ≡ []) × (handed a (cancel_calls o) ≡ [])
unfolding dialled handed
silent_cancel a none = (refl, refl)
silent_cancel a (some timer) = (refl, refl)

told_one :
    (a : ℕ) (e : CcEvent) (leg : Option ℕ) (conf : SipConf)
    → leg ≡ some a
    → (dialled (told e leg conf) ≡ []) × (handed a (told e leg conf) ≡ e ∷ [])
unfolding dialled handed
told_one a e none conf h = cc
told_one a e (some b) conf h = ground arith

Ended-Exhausted :
    (env : Env) (e : CcEvent) (a : ℕ) (s t : State)
    → s.ctl.ua_a ≡ some a
    → Ended env e s t
    → Exhausted [] e a s t
Ended-Exhausted env e a s t trunk (c, calls, _, _, _, _, _) =
    let cancel = silent_cancel a s.ctl.no_answer_timer in
    let last = told_one a e s.ctl.ua_a s.world.sip_conf trunk in
    (
      rw calls (simp (dialled-append, cancel.0, last.0, append-nil)),
      rw calls (simp (handed-append, cancel.1, last.1, append-nil)),
      ap (λ (x : Controller). x.no_answer_timer) c,
    )

attempt_calls-facts :
    (hop : NextHop) (p : TryData) (a : ℕ) (s : State)
    → a < s.world.next_ua
    → (dialled (attempt_calls hop p s) ≡ address hop ∷ []) × (handed a (attempt_calls hop p s) ≡ [])
unfolding dialled handed
attempt_calls-facts hop p a s lt = ground arith

-- A failover dials one hop and tells the trunk nothing.
FailedOver-facts :
    (hop : NextHop) (rest : List NextHop) (p : TryData) (a : ℕ) (s t : State)
    → a < s.world.next_ua
    → FailedOver hop rest p s t
    → (dialled t.world.sippy ≡ dialled s.world.sippy ++ address hop ∷ [])
      × (handed a t.world.sippy ≡ handed a s.world.sippy)
FailedOver-facts hop rest p a s t lt (c, calls, _, _, _, _) =
    let one = attempt_calls-facts hop p a s lt in
    let cancel = silent_cancel a (some s.world.next_timer) in
    (
      rw calls (simp (dialled-append, one.0, cancel.0, append-nil)),
      rw calls (simp (handed-append, one.1, cancel.1, append-nil)),
    )

one_more :
    (hop : NextHop) (rest : List NextHop) (e : CcEvent) (a : ℕ) (s t u : State)
    → (dialled t.world.sippy ≡ dialled s.world.sippy ++ address hop ∷ [])
    → (handed a t.world.sippy ≡ handed a s.world.sippy)
    → Exhausted rest e a t u
    → Exhausted (hop ∷ rest) e a s u
one_more hop rest e a s t u d h (dials, hands, timer) = (
  rw (dials, d) (append_assoc (dialled s.world.sippy) (address hop ∷ []) (map address rest)),
  rw (hands, h),
  timer,
)

not_connected :
    (env : Env) (leg : Option ℕ)
    → ((x : ℕ) → env.connected x ≡ false)
    → is_connected env leg ≡ false
unfolding is_connected
not_connected env none idle = refl
not_connected env (some ua) idle = idle ua

-- One event of the leg of the moment is the relay of that event.
as_relay :
    (P : State → Type 0) (env : Env) (e : CcEvent) (s : State) (ua : ℕ)
    → IsValid s
    → s.ctl.ua_o ≡ some ua
    → Returns (λ _. P) (relay_from_next_hop env e s)
    → Returns (λ _. P) (from_leg env e s)
as_relay P env e s ua v leg h = subst (Returns (λ _. P)) (sym (from_leg-relay env e s ua v leg)) h

trunk_below : (s : State) (a : ℕ) → s.ctl.ua_a ≡ some a → IsValid s → a < s.world.next_ua
trunk_below s a e v = ground (arith, v.trunk)

module _ (env : Env) (e : CcEvent) (over : ends e ≡ true) where
  walk :
      (es : List CcEvent) (hops : List NextHop) (s : State) (a ua : ℕ)
      → All (λ x. ends x ≡ true) es
      → length es ≡ length hops
      → ((x : ℕ) → env.connected x ≡ false)
      → IsValid s
      → s.ctl.ua_a ≡ some a
      → s.ctl.ua_o ≡ some ua
      → s.ctl.failover_hops ≡ hops
      → Returns (λ _. Exhausted hops e a s) (from_legs env (es ++ e ∷ []) s)
  unfolding from_legs
  walk [] [] s a ua ends_all same idle v trunk leg none_left =
      Returns-bind {P = λ _. Exhausted [] e a s} _ (from_leg env e) (λ _. pure tt) s
        (as_relay (Exhausted [] e a s) env e s ua v leg (
          Returns-mono {P = λ _. Ended env e s} _ _
            (relay_from_next_hop-Ended env e s over (inr none_left))
            (λ _ t r. Ended-Exhausted env e a s t trunk r)))
        (λ _ t r. r)
  walk [] (hop ∷ rest) s a ua ends_all same idle v trunk leg more = absurd (omega arith)
  walk (x ∷ es) [] s a ua ends_all same idle v trunk leg more = absurd (omega arith)
  walk (x ∷ es) (hop ∷ rest) s a ua ends_all same idle v trunk leg more =
      let (_, _, _, p, pending, words) = subst (λ l. Routed l s.ctl) leg v.routed in
      Returns-bind {P = λ _. FailedOver hop rest p s} _ (from_leg env x)
        (λ _. from_legs env (es ++ e ∷ [])) s
        (as_relay (FailedOver hop rest p s) env x s ua v leg (
          relay_from_next_hop-FailedOver env x hop rest p s ends_all.0
            (not_connected env s.ctl.ua_a idle) more pending words))
        λ _ t r.
          let facts = FailedOver-facts hop rest p a s t (trunk_below s a trunk v) r in
          Returns-mono {P = λ _. Exhausted rest e a t} _ _
            (walk es rest t a s.world.next_ua ends_all.1 (omega arith) idle
              (FailedOver-IsValid hop rest p s t v pending words r)
              (ap (λ (c : Controller). c.ua_a) r.0 ∙ trunk) (ap (λ (c : Controller). c.ua_o) r.0)
              (ap (λ (c : Controller). c.failover_hops) r.0))
            (λ _ u w. one_more hop rest e a s t u facts.0 facts.1 w)

-- From a valid state with both legs, while no leg is connected: when the serving hop and every hop
-- left over fail or release one after the other, one event each, nothing is raised, each hop left over
-- is dialled once, in order, the trunk leg is handed the last of the events and no other, and no timer
-- is held in the end.
pub from_legs-Exhausted :
    (env : Env) (es : List CcEvent) (e : CcEvent) (s : State) (a ua : ℕ)
    → All (λ x. ends x ≡ true) es
    → ends e ≡ true
    → length es ≡ length s.ctl.failover_hops
    → ((x : ℕ) → env.connected x ≡ false)
    → IsValid s
    → s.ctl.ua_a ≡ some a
    → s.ctl.ua_o ≡ some ua
    → Returns (λ _. Exhausted s.ctl.failover_hops e a s) (from_legs env (es ++ e ∷ []) s)
from_legs-Exhausted env es e s a ua ends_all over same idle v trunk leg =
    walk env e over es s.ctl.failover_hops s a ua ends_all same idle v trunk leg refl
