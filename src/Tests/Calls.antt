-- ===== src/Tests/Calls.antt =====
-- The theorems on calls, applied.
use as_platform.Base.{◌≡◌, refl, inr, [], ◌∷◌, none, arith, All, str_dec}
use as_platform.Base.Dict.{has, keys, update}
use as_platform.Errors.{as_log_fields}
use as_platform.World.{◌>>◌, fail, disconnect, ring, try_event, SippyCall, Controller, clash, relay}
use as_platform.CallController.{
  relay_from_next_hop, relay_from_trunk, dispose, ends, answers, is_connected, text_fields,
}
use as_platform.CallController.Attempt.{Returns}
use as_platform.CallController.Failover.{FailedOver, relay_from_next_hop-FailedOver}
use as_platform.CallController.Ending.{
  Ended, Passed, cancelled, relay_from_next_hop-Ended, relay_from_next_hop-Passed,
}
use as_platform.CallController.Trunk.{Decided, relay_from_trunk-Decided}
use as_platform.CallController.Steps.{event, fires, stopped, run, IsApp, IsValid}
use as_platform.CallController.Keeps.{run-IsValid}
use as_platform.CallController.Walk.{Exhausted, from_legs, from_legs-Exhausted}
use as_platform.CallController.Timers.{
  Unwatched, LeftArmed, failover-Unwatched, dispose-after_failover, stale_timer-releases,
}
use as_platform.CallController.OneLeg.{Unrouted, run-Unrouted}
use as_platform.CallMap.{CallMap, recv_request}
use as_platform.CallMap.Screening.{Screened, recv_request-Screened}
use as_platform.CallMap.Shutdown.{Quiet, released, dispose-Quiet}
use as_platform.CallMap
use as_platform.Tests.{
  core_a, core_b, config, invite, accepting, relaying, rejecting, idle_world, fresh_controller,
  request, answering, trying, last_hop,
}

answering-IsValid : IsValid answering
answering-IsValid = record {
  trunk = (0, refl, omega arith);
  leg = tt;
  routed = refl;
  held = tt;
  waiting = tt;
}

trying-IsValid : IsValid trying
unfolding clash has str_dec
trying-IsValid = record {
  trunk = (0, refl, omega arith);
  leg = (omega arith, λ same. ground arith);
  routed = (core_a, refl, refl, invite, refl, refl);
  held = omega arith;
  waiting = (omega arith, tt);
}

pub relaying-IsApp : IsApp relaying
unfolding clash has str_dec
relaying-IsApp e = (invite, core_a, core_b ∷ [], refl, refl, refl)

rejecting-IsApp : IsApp rejecting
unfolding clash has str_dec text_fields as_log_fields keys update
rejecting-IsApp e = (_, refl, refl)

run-IsValid_example :
    Returns
      (λ _. IsValid)
      (run
        ((relaying, event (ring none) 1)
          ∷ (relaying, event (fail none) 1)
          ∷ (relaying, fires 0)
          ∷ (relaying, stopped)
          ∷ [])
        trying)
run-IsValid_example =
    run-IsValid
      ((relaying, event (ring none) 1)
        ∷ (relaying, event (fail none) 1)
        ∷ (relaying, fires 0)
        ∷ (relaying, stopped)
        ∷ [])
      trying (relaying-IsApp, (relaying-IsApp, (relaying-IsApp, (relaying-IsApp, tt))))
      trying-IsValid

relay_from_next_hop-FailedOver_example :
    Returns
      (λ _. FailedOver core_b [] invite trying)
      (relay_from_next_hop relaying (fail none) trying)
unfolding ends is_connected clash has str_dec
relay_from_next_hop-FailedOver_example =
    relay_from_next_hop-FailedOver relaying (fail none) core_b [] invite trying refl refl refl refl
      refl

relay_from_trunk-Decided_example :
    Returns
      (λ _. Decided relay accepting answering)
      (relay_from_trunk relaying (try_event invite) answering)
relay_from_trunk-Decided_example =
    relay_from_trunk-Decided relaying invite answering refl (relaying-IsApp invite)

from_legs-Exhausted_example :
    Returns
      (λ _. Exhausted (core_b ∷ []) disconnect 0 trying)
      (from_legs relaying (fail none ∷ disconnect ∷ []) trying)
unfolding ends
from_legs-Exhausted_example =
    from_legs-Exhausted relaying (fail none ∷ []) disconnect trying 0 1 (refl, tt) refl refl
      (λ _. refl) trying-IsValid refl refl

relay_from_next_hop-Ended_example :
    Returns
      (λ _. Ended relaying disconnect last_hop)
      (relay_from_next_hop relaying disconnect last_hop)
unfolding ends
relay_from_next_hop-Ended_example =
    relay_from_next_hop-Ended relaying disconnect last_hop refl (inr refl)

relay_from_next_hop-Passed_example :
    Returns
      (λ _. Passed (ring none) (cancelled trying))
      (relay_from_next_hop relaying (ring none) trying)
unfolding ends answers
relay_from_next_hop-Passed_example = relay_from_next_hop-Passed relaying (ring none) trying refl

failover-Unwatched_example :
    Returns (λ _. Unwatched core_b trying) (relay_from_next_hop relaying (fail none) trying)
unfolding ends is_connected
failover-Unwatched_example =
    failover-Unwatched relaying (fail none) core_b [] trying 1 refl refl refl trying-IsValid refl

dispose-after_failover_example :
    Returns
      (λ _ t. t.world.armed ≡ 0 ∷ [])
      ((do relay_from_next_hop relaying (fail none); dispose) trying)
unfolding ends is_connected
dispose-after_failover_example =
    dispose-after_failover relaying (fail none) core_b [] trying 1 refl refl refl trying-IsValid
      refl

stale_timer-releases_example :
    Returns
      (λ _. LeftArmed relaying (fail none) core_b [] trying 1 0)
      (relay_from_next_hop relaying (fail none) trying)
unfolding ends is_connected
stale_timer-releases_example =
    stale_timer-releases relaying (fail none) core_b [] trying 1 0 refl refl refl trying-IsValid
      refl refl refl

run-Unrouted_example :
    Returns
      (λ _. Unrouted 1)
      (run
        ((rejecting, event (try_event invite) 0) ∷ (rejecting, event disconnect 0) ∷ [])
        answering)
run-Unrouted_example =
    run-Unrouted ((rejecting, event (try_event invite) 0) ∷ (rejecting, event disconnect 0) ∷ []) 1
      answering (rejecting-IsApp, (rejecting-IsApp, tt)) ((λ _. refl), ((λ _. refl), tt))
      (answering-IsValid, refl, refl)

abbrev one_peer : CallMap
one_peer = record { global_config = config; allowed_peers = "203.0.113.9" ∷ []; controllers = [] }

recv_request-Screened_example :
    Screened
      (λ _. fresh_controller)
      request
      one_peer
      idle_world
      (recv_request relaying (λ _. fresh_controller) request one_peer idle_world)
unfolding clash has
recv_request-Screened_example =
    recv_request-Screened relaying (λ _. fresh_controller) request one_peer idle_world refl

abbrev two_calls : CallMap
two_calls = record one_peer { controllers = trying.ctl ∷ answering.ctl ∷ [] }

dispose-Quiet_example :
    (end : _) × (CallMap.dispose two_calls trying.world ≡ (
      none,
      record two_calls { controllers = released trying.ctl ∷ released answering.ctl ∷ [] },
      end,
    ))
    × (end.sippy ≡ SippyCall.cancel_timer 0 ∷ [])
    × All (λ (c : Controller). Quiet c.no_answer_timer end.armed) two_calls.controllers
dispose-Quiet_example = dispose-Quiet two_calls trying.world
