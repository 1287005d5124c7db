-- ===== src/Stack/Releases.antt =====
-- main.py, `BaseAsStack.stop`: what each of its steps leaves.
use mathlib.Core.List.{append-nil, append_assoc}
use as_platform.Base.{ℕ, ◌≡◌, refl, sym, ap, ◌∙◌, List, [], ◌∷◌, ◌++◌, Option, none, some, map, All}
use as_platform.World.{World, Controller}
use as_platform.CallController.{cancel_timer}
use as_platform.CallMap.{CallMap, dispose}
use as_platform.CallMap.Shutdown.{
  Quiet, released, after_all, dispose_each_lem, Quiet-still_armed, Quiet-cancelled,
  Quiet-left_armed, All-Quiet,
}
use as_platform.SipAdapter.{TransactionManager, cancel_transaction_timers}
use as_platform.SipAdapter.Drained.{cancel_transaction_timers-Drained}
use as_platform.SipAdapter.Timers.{live_manager}
use as_platform.Stack.{
  Stack, Release, cancel_loop_timer, dispose_call_map, cancel_transactions, shutdown_manager,
  stop_internal_api, stop_transport, release_shutdown_timer, release_reload_timer, release_call_map,
  release_manager, release_internal_api,
}

-- The manager once its timers are cancelled.
abbrev pub drained : TransactionManager → TransactionManager
drained m = (cancel_transaction_timers m).2

-- The order of the releases: the timers of the loop, the calls, the manager's timers, the manager,
-- the API, the transport.
abbrev pub timer_releases : Option ℕ → List Release
timer_releases none = []
timer_releases (some timer) = cancel_loop_timer timer ∷ []

abbrev pub call_releases : Option CallMap → List Release
call_releases none = []
call_releases (some m) = dispose_call_map m ∷ []

abbrev pub manager_releases : Option TransactionManager → List Release
manager_releases none = []
manager_releases (some m) = cancel_transactions (live_manager m) ∷ shutdown_manager (drained m) ∷ []

abbrev pub api_releases : Option ℕ → List Release
api_releases none = []
api_releases (some server) = stop_internal_api server ∷ []

-- The world without a timer of the loop.
abbrev pub quieted : Option ℕ → World → World
quieted none w = w
quieted (some timer) w = cancel_timer timer w

-- The calls once they are disposed of.
abbrev pub disposed : Option CallMap → Option CallMap
disposed none = none
disposed (some m) = some (record m { controllers = map released m.controllers })

abbrev pub after_calls : Option CallMap → World → World
after_calls none w = w
after_calls (some m) w = after_all m.controllers w

cancelled_timers : (m : TransactionManager) → (cancel_transaction_timers m).1 ≡ live_manager m
cancelled_timers m = ap (λ r. r.1) (cancel_transaction_timers-Drained m).1

pub reassoc :
    (l a b c d e f : List Release)
    → l ++ a ++ b ++ c ++ d ++ e ++ f ≡ l ++ (a ++ b ++ c ++ d ++ e ++ f)
reassoc l a b c d e f = simp append_assoc

pub Quiet-quieted :
    (held o : Option ℕ) (w : World) → Quiet held w.armed → Quiet held (quieted o w).armed
unfolding cancel_timer
Quiet-quieted held none w h = h
Quiet-quieted held (some t) w h = Quiet-still_armed held (some t) w.armed h

pub quieted-Quiet : (o : Option ℕ) (w : World) → Quiet o (quieted o w).armed
unfolding cancel_timer
quieted-Quiet none w = tt
quieted-Quiet (some t) w = Quiet-cancelled (some t) w.armed

pub Quiet-after_calls :
    (held : Option ℕ) (o : Option CallMap) (w : World)
    → Quiet held w.armed
    → Quiet held (after_calls o w).armed
Quiet-after_calls held none w h = h
Quiet-after_calls held (some m) w h = Quiet-left_armed held m.controllers w.armed h

-- Every timer that a call held has been cancelled.
abbrev pub CallsQuiet : Option CallMap → List ℕ → Type 0
CallsQuiet none armed = Unit {0}
CallsQuiet (some m) armed = All (λ (c : Controller). Quiet c.no_answer_timer armed) m.controllers

pub after_calls-CallsQuiet : (o : Option CallMap) (w : World) → CallsQuiet o (after_calls o w).armed
after_calls-CallsQuiet none w = tt
after_calls-CallsQuiet (some m) w = All-Quiet m.controllers w.armed

-- What is handed to the manager's own shutdown has no timer left that is still to fire.
abbrev pub ManagerDrained : Option TransactionManager → Type 0
ManagerDrained none = Unit {0}
ManagerDrained (some m) = live_manager (drained m) ≡ []

pub drained-ManagerDrained : (o : Option TransactionManager) → ManagerDrained o
drained-ManagerDrained none = tt
drained-ManagerDrained (some m) =
    let (after, e, none_live, again) = cancel_transaction_timers-Drained m in
    ap live_manager (ap (λ r. r.2) e) ∙ none_live

module _ {T : Type 0} where
  abbrev pub all_releases : Stack T → List Release
  all_releases s =
      timer_releases s.shutdown_timer
      ++ timer_releases s.reload_timer
      ++ call_releases s.call_map
      ++ manager_releases s.transaction_manager
      ++ api_releases s.internal_api
      ++ stop_transport ∷ []

  pub shutdown_timer_lem :
      (o : Option ℕ) (s : Stack T)
      → release_shutdown_timer o (record s { shutdown_timer = o }) ≡ record s {
        shutdown_timer = none;
        world = quieted o s.world;
        releases = s.releases ++ timer_releases o;
      }
  unfolding release_shutdown_timer
  shutdown_timer_lem none s =
      λ i. record s { shutdown_timer = none; releases = sym (append-nil s.releases) i }
  shutdown_timer_lem (some timer) s = refl

  pub reload_timer_lem :
      (o : Option ℕ) (s : Stack T)
      → release_reload_timer o (record s { reload_timer = o }) ≡ record s {
        reload_timer = none;
        world = quieted o s.world;
        releases = s.releases ++ timer_releases o;
      }
  unfolding release_reload_timer
  reload_timer_lem none s =
      λ i. record s { reload_timer = none; releases = sym (append-nil s.releases) i }
  reload_timer_lem (some timer) s = refl

  pub call_map_lem :
      (o : Option CallMap) (s : Stack T)
      → release_call_map o (record s { call_map = o }) ≡ (
        none,
        record s {
          call_map = disposed o;
          world = after_calls o s.world;
          releases = s.releases ++ call_releases o;
        },
      )
  unfolding release_call_map dispose
  call_map_lem none s =
      λ i. (none, record s { call_map = none; releases = sym (append-nil s.releases) i })
  call_map_lem (some m) s = rw (dispose_each_lem m.controllers s.world) refl

  pub manager_lem :
      (o : Option TransactionManager) (s : Stack T)
      → release_manager o (record s { transaction_manager = o })
        ≡ record s { transaction_manager = none; releases = s.releases ++ manager_releases o }
  unfolding release_manager
  manager_lem none s =
      λ i. record s { transaction_manager = none; releases = sym (append-nil s.releases) i }
  manager_lem (some m) s = λ i. record s {
    transaction_manager = none;
    releases =
        (append_assoc s.releases (cancel_transactions (cancel_transaction_timers m).1 ∷ [])
              (shutdown_manager (drained m) ∷ [])
            ∙ ap (λ ids. s.releases ++ cancel_transactions ids ∷ shutdown_manager (drained m) ∷ [])
                (cancelled_timers m))
          i;
  }

  pub api_lem :
      (o : Option ℕ) (s : Stack T)
      → release_internal_api o (record s { internal_api = o })
        ≡ record s { internal_api = none; releases = s.releases ++ api_releases o }
  unfolding release_internal_api
  api_lem none s = λ i. record s { internal_api = none; releases = sym (append-nil s.releases) i }
  api_lem (some server) s = refl
