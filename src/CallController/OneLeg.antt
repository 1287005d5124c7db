-- ===== src/CallController/OneLeg.antt =====
-- A call that the application rejects is never given a next-hop leg.
use as_platform.Base.{
  ℕ, ◌≡◌, refl, sym, ap, subst, ◌∙◌, false, List, [], ◌∷◌, none, Bool-cases, inl, inr,
}
use as_platform.World.{State, Env, CcEvent, try_event, ring, TryData, reject}
use as_platform.CallController.{recv_event, is_ua, relay_from_trunk, dispose}
use as_platform.CallController.Attempt.{Returns, Returns-bind, Returns-mono}
use as_platform.CallController.Ending.{cancel_no_answer_timer_lem}
use as_platform.CallController.Trunk.{Decided, relay_from_trunk-Decided}
use as_platform.CallController.Steps.{
  Input, event, fires, stopped, perform, run, IsApp, IsValid, cancelled-Valid,
}
use as_platform.CallController.Keeps.{fires-Fired, Fired-IsValid, IsRun}
use as_platform.CallController.FromTrunk.{Decided-IsValid, from_gone, Untouched-Kept}

-- Every application of a run rejects every call.
abbrev Refuses : Env → Type 0
Refuses env = (d : TryData) → (env.decide d).action ≡ reject

abbrev AllRefuse : List (Env × Input) → Type 0
AllRefuse [] = Unit {0}
AllRefuse ((env, input) ∷ rest) = Refuses env × AllRefuse rest

-- A valid state with no next-hop leg and a given count of UAs.
abbrev pub Unrouted : ℕ → State → Type 0
Unrouted n s = IsValid s × (s.ctl.ua_o ≡ none) × (s.world.next_ua ≡ n)

from_caller :
    (env : Env) (e : CcEvent) (n : ℕ) (s : State)
    → IsApp env
    → Refuses env
    → Unrouted n s
    → Returns (λ _. Unrouted n) (relay_from_trunk env e s)
from_caller env (try_event d) n s app refuses (v, fresh, count) =
    Returns-mono (λ _. Unrouted n) _ (relay_from_trunk-Decided env d s fresh (app d))
      λ _ t r.
        let (error, _, (c, _, _, _, ua, _)) =
          subst (λ a. Decided a (env.decide d) s t) (refuses d) r in
        (Decided-IsValid _ _ s t fresh v r, ap (λ (k : _). k.ua_o) c ∙ fresh, ua ∙ count)
from_caller env (ring r) n s app refuses (v, fresh, count) =
    Returns-mono (λ _. Unrouted n) _ (from_gone env (ring r) s (λ d x. cc) v fresh)
      (λ _ t u. ((Untouched-Kept s t v u).0, ap (λ (k : _). k.ua_o) u.0 ∙ fresh, u.1 ∙ count))
from_caller env e n s app refuses (v, fresh, count) =
    Returns-mono (λ _. Unrouted n) _ (from_gone env e s (λ d x. cc) v fresh)
      (λ _ t u. ((Untouched-Kept s t v u).0, ap (λ (k : _). k.ua_o) u.0 ∙ fresh, u.1 ∙ count))

perform-Unrouted :
    (env : Env) (input : Input) (n : ℕ) (s : State)
    → IsApp env
    → Refuses env
    → Unrouted n s
    → Returns (λ _. Unrouted n) (perform env input s)
unfolding perform dispose recv_event
perform-Unrouted env (event e ua) n s app refuses (v, fresh, count) =
    elim (Bool-cases (is_ua ua s.ctl.ua_a)) [
      | inl trunk ↦ rw trunk (from_caller env e n s app refuses (v, fresh, count))
      | inr strange ↦
          let nobody : is_ua ua s.ctl.ua_o ≡ false = rw fresh (unfold is_ua in refl) in
          rw (strange, nobody) (v, fresh, count)
    ]
perform-Unrouted env (fires x) n s app refuses (v, fresh, count) =
    Returns-mono (λ _. Unrouted n) _ (fires-Fired env x s)
      (λ _ t u. (Fired-IsValid x s t v u, ap (λ (k : _). k.ua_o) u.0 ∙ fresh, u.1 ∙ count))
perform-Unrouted env stopped n s app refuses (v, fresh, count) =
    subst (Returns (λ _. Unrouted n)) (sym (cancel_no_answer_timer_lem s))
      (cancelled-Valid s v, fresh, count)

-- When every application of the run rejects every call, with an error in each rejection and no log
-- field that is spelled like an argument of the log call, then, from a valid state with no next-hop
-- leg, any sequence of inputs runs without raising, and afterwards the state is valid, there is still
-- no next-hop leg, and no UA has been made.
pub run-Unrouted :
    (inputs : List (Env × Input)) (n : ℕ) (s : State)
    → IsRun inputs
    → AllRefuse inputs
    → Unrouted n s
    → Returns (λ _. Unrouted n) (run inputs s)
unfolding run
run-Unrouted [] n s app refuses u = u
run-Unrouted ((env, input) ∷ rest) n s app refuses u =
    Returns-bind {P = λ _. Unrouted n} (λ _. Unrouted n) (perform env input) (λ _. run rest) s
      (perform-Unrouted env input n s app.0 refuses.0 u)
      (λ _ t w. run-Unrouted rest n t app.1 refuses.1 w)
