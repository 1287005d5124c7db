-- ===== src/Tests/Process.antt =====
-- The theorem on all calls of a process, applied to a call that is made, fails over and is disposed of
-- while another one arrives.
use as_platform.Base.{
  ◌≡◌, ◌≤◌, refl, String, Option, none, List, [], ◌∷◌, ℕ, All, some, true, arith, str_dec,
}
use as_platform.Base.Dict.{has}
use as_platform.World.{fail, try_event, World, Controller, clash}
use as_platform.CallController.Spares.{is_armed}
use as_platform.CallController.Steps.{event, fires, stopped}
use as_platform.CallMap.{CallMap}
use as_platform.CallMap.Process.{ProcessInput, arrives, reaches, shut_down, process_inputs}
use as_platform.CallMap.Process.Delivery.{AllValid}
use as_platform.CallMap.Process.Lives.{IsProper, process_inputs-AllValid}
use as_platform.CallMap.Process.Apart.{Apart}
use as_platform.CallMap.Process.Elsewhere.{IsElsewhere}
use as_platform.CallMap.Process.Isolation.{At, process_inputs-At}
use as_platform.Tests.{
  core_a, trying, config, relaying, request, invite, fresh_controller, idle_world,
}
use as_platform.Tests.Calls.{relaying-IsApp}

abbrev no_calls : CallMap
no_calls = record { global_config = config; allowed_peers = "203.0.113.9" ∷ []; controllers = [] }

abbrev build : Option (String × ℕ) → Controller
build hop = record fresh_controller { next_hop = hop }

abbrev busy : List ProcessInput
busy =
    arrives relaying build request
    ∷ reaches 0 relaying (event (try_event invite) 0)
    ∷ arrives relaying build request
    ∷ reaches 0 relaying (event (fail none) 1)
    ∷ reaches 1 relaying (fires 0)
    ∷ shut_down
    ∷ []

busy-IsProper : All IsProper busy
unfolding clash has
busy-IsProper = (
  (refl, λ hop. (refl, refl, refl)),
  (
    relaying-IsApp,
    ((refl, λ hop. (refl, refl, refl)), (relaying-IsApp, (relaying-IsApp, (tt, tt)))),
  ),
)

process_inputs-AllValid_example :
    let (e, m, w) = process_inputs busy no_calls idle_world in
    (e ≡ none)
    × AllValid m w
    × (idle_world.next_ua ≤ w.next_ua)
    × (idle_world.next_timer ≤ w.next_timer)
process_inputs-AllValid_example =
    process_inputs-AllValid busy no_calls idle_world busy-IsProper (tt, tt)

-- A call that waits for its first hop, beside one that has just been answered.
abbrev two_calls : CallMap
two_calls = record no_calls {
  controllers = trying.ctl ∷ record fresh_controller { ua_a = some 2; call_id = "call-2" } ∷ [];
}

abbrev two_world : World
two_world = record trying.world { next_ua = 3 }

two_calls-AllValid : AllValid two_calls two_world
unfolding clash has str_dec
two_calls-AllValid = (
  (omega arith, tt),
  (
    record {
      trunk = (0, refl, omega arith);
      leg = (omega arith, λ same. ground arith);
      routed = (core_a, refl, refl, invite, refl, refl);
      held = omega arith;
      waiting = (omega arith, tt);
    },
    (
      record {
        trunk = (2, refl, omega arith);
        leg = tt;
        routed = refl;
        held = tt;
        waiting = (omega arith, tt);
      },
      tt,
    ),
  ),
)

-- The second call is routed, fails over, times out and is disposed of, and a third one arrives.
abbrev elsewhere : List ProcessInput
elsewhere =
    reaches 1 relaying (event (try_event invite) 2)
    ∷ arrives relaying build request
    ∷ reaches 1 relaying (event (fail none) 3)
    ∷ reaches 1 relaying (fires 1)
    ∷ reaches 1 relaying stopped
    ∷ []

elsewhere-IsProper : All IsProper elsewhere
unfolding clash has
elsewhere-IsProper = (
  relaying-IsApp,
  ((refl, λ hop. (refl, refl, refl)), (relaying-IsApp, (relaying-IsApp, (relaying-IsApp, tt)))),
)

elsewhere-IsElsewhere : All (IsElsewhere 0 0) elsewhere
elsewhere-IsElsewhere = (
  (λ e. omega arith, λ e. cc),
  (
    tt,
    (
      (λ e. omega arith, λ e. cc),
      ((λ e. omega arith, λ e. ground arith), ((λ e. omega arith, λ e. cc), tt)),
    ),
  ),
)

two_calls-Apart : Apart two_calls.controllers
two_calls-Apart = (
  ((λ x e f. cc, λ x e f. ground arith, λ x e f. cc, λ x e f. ground arith, λ x e f. cc), tt),
  (tt, tt),
)

process_inputs-At_example :
    let (e, m, w) = process_inputs elsewhere two_calls two_world in
    (e ≡ none) × At trying.ctl 0 m.controllers × Apart m.controllers × (is_armed 0 w.armed ≡ true)
process_inputs-At_example =
    process_inputs-At 0 0 trying.ctl elsewhere two_calls two_world elsewhere-IsProper
      elsewhere-IsElsewhere two_calls-AllValid two_calls-Apart refl refl refl
