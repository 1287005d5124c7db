-- ===== src/Stack/Stop.antt =====
-- main.py, `BaseAsStack.stop`: the order in which everything is released, and what is left.
use mathlib.Core.List.{append-nil}
use as_platform.Base.{◌≡◌, refl, ap, ◌∙◌, [], ◌∷◌, ◌++◌, Option, none}
use as_platform.World.{Exn}
use as_platform.CallMap.Shutdown.{Quiet}
use as_platform.Transport.{Transport}
use as_platform.Stack.{
  Stack, stop_transport, release_reload_timer, release_call_map, release_internal_api, release_rest,
  stop,
}
use as_platform.Stack.Releases.{
  timer_releases, call_releases, manager_releases, api_releases, quieted, disposed, after_calls,
  reassoc, Quiet-quieted, quieted-Quiet, Quiet-after_calls, CallsQuiet, after_calls-CallsQuiet,
  ManagerDrained, drained-ManagerDrained, all_releases, shutdown_timer_lem, reload_timer_lem,
  call_map_lem, manager_lem, api_lem,
}

module _ {T : Type 0} where
  -- The stack once it has stopped.
  abbrev ended : {E : Type 0} → Transport E T → Stack T → Stack T
  ended tr s = record s {
    transport = tr.stop s.transport;
    internal_api = none;
    shutdown_timer = none;
    reload_timer = none;
    transaction_manager = none;
    call_map = disposed s.call_map;
    world = after_calls s.call_map (quieted s.reload_timer (quieted s.shutdown_timer s.world));
    releases = s.releases ++ all_releases s;
  }

  abbrev finish : {E : Type 0} → Transport E T → Stack T → Option Exn × Stack T
  finish tr m = (
    none,
    record m { transport = tr.stop m.transport; releases = m.releases ++ stop_transport ∷ [] },
  )

  rest_lem :
      {E : Type 0} (tr : Transport E T) (s : Stack T)
      → release_rest tr (none, s)
        ≡ finish tr (record s {
          transaction_manager = none;
          internal_api = none;
          releases =
              (s.releases ++ manager_releases s.transaction_manager) ++ api_releases s.internal_api;
        })
  unfolding release_rest
  rest_lem tr s =
      ap (λ (m : Stack T). finish tr (release_internal_api m.internal_api m))
        (manager_lem s.transaction_manager s)
      ∙ ap (λ (m : Stack T). finish tr m)
          (api_lem s.internal_api (record s {
            transaction_manager = none;
            releases = s.releases ++ manager_releases s.transaction_manager;
          }))

  abbrev reloaded : Stack T → Stack T
  reloaded s = release_reload_timer s.reload_timer s

  stop_lem : {E : Type 0} (tr : Transport E T) (s : Stack T) → stop tr s ≡ (none, ended tr s)
  unfolding stop
  stop_lem tr s =
      let polled : Stack T = record s {
        shutdown_timer = none;
        world = quieted s.shutdown_timer s.world;
        releases = s.releases ++ timer_releases s.shutdown_timer;
      } in
      let loaded : Stack T = record polled {
        reload_timer = none;
        world = quieted s.reload_timer polled.world;
        releases = polled.releases ++ timer_releases s.reload_timer;
      } in
      let called : Stack T = record loaded {
        call_map = disposed s.call_map;
        world = after_calls s.call_map loaded.world;
        releases = loaded.releases ++ call_releases s.call_map;
      } in
      ap (λ (p : Stack T). release_rest tr (release_call_map (reloaded p).call_map (reloaded p)))
        (shutdown_timer_lem s.shutdown_timer s)
      ∙ ap (λ (u : Stack T). release_rest tr (release_call_map u.call_map u))
          (reload_timer_lem s.reload_timer polled)
      ∙ ap (release_rest tr) (call_map_lem s.call_map loaded)
      ∙ rest_lem tr called
      ∙ (λ i. (
        none,
        record (ended tr s) {
          releases =
              reassoc s.releases (timer_releases s.shutdown_timer) (timer_releases s.reload_timer)
                (call_releases s.call_map) (manager_releases s.transaction_manager)
                (api_releases s.internal_api) (stop_transport ∷ []) i;
        },
      ))

  -- What a stop leaves: nothing is held, nothing that was held is armed, and the releases were made
  -- in their order.
  abbrev pub Released : {E : Type 0} → Transport E T → Stack T → Stack T → Type 0
  Released tr s t =
      (t.transport ≡ tr.stop s.transport)
      × (t.shutdown_timer ≡ none)
      × (t.reload_timer ≡ none)
      × (t.transaction_manager ≡ none)
      × (t.internal_api ≡ none)
      × (t.releases ≡ s.releases ++ all_releases s)
      × ManagerDrained s.transaction_manager
      × Quiet s.shutdown_timer t.world.armed
      × Quiet s.reload_timer t.world.armed
      × CallsQuiet s.call_map t.world.armed

  -- Stopping a stack, whatever it holds, raises nothing. It cancels the timers of the loop, disposes
  -- of the calls, cancels exactly the manager's timers that are still to fire, shuts the manager down,
  -- stops the API and stops the transport, in this order, each of them if it is held; the manager is
  -- shut down with no timer left that is still to fire. Afterwards nothing is held, and of the timers
  -- that the stack and its calls held when it stopped, none is armed; a timer that no call held any
  -- more, as that of an attempt before a failover, is not among them. What is left for a second stop
  -- is the calls, none of which holds a timer, and the transport.
  pub stop-Released :
      {E : Type 0} (tr : Transport E T) (s : Stack T)
      → (t : Stack T) × (stop tr s ≡ (none, t))
        × Released tr s t
        × (t.call_map ≡ disposed s.call_map)
        × (all_releases t ≡ call_releases t.call_map ++ stop_transport ∷ [])
  stop-Released tr s = (
    ended tr s,
    stop_lem tr s,
    (
      refl,
      refl,
      refl,
      refl,
      refl,
      refl,
      drained-ManagerDrained s.transaction_manager,
      Quiet-after_calls s.shutdown_timer s.call_map _ (
          Quiet-quieted s.shutdown_timer s.reload_timer _ (quieted-Quiet s.shutdown_timer s.world)),
      Quiet-after_calls s.reload_timer s.call_map _ (quieted-Quiet s.reload_timer _),
      after_calls-CallsQuiet s.call_map _,
    ),
    refl,
    simp append-nil,
  )
