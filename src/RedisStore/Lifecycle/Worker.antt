-- ===== src/RedisStore/Lifecycle/Worker.antt =====
-- The turns of the one worker thread of the Redis store, while it is not told to stop.
use mathlib.Core.List.{append-nil}
use as_platform.Base.{
  ℕ, ◌≡◌, refl, ap, ◌∙◌, ◌⊎◌, inl, inr, true, false, List, [], ◌∷◌, arith, eqb, Bool-cases,
}
use as_platform.RedisStore.{RedisClient, Json, WorkItem}
use as_platform.RedisStore.Queue.{
  round, process_all, outlook, extend, outlook-round, outlook-put, extend-extend,
}
use as_platform.RedisStore.Lifecycle.{
  Phase, created, looping, ended, Event, put, turn, with_phase, RedisStore, step, run, take_turn,
  goes_on,
}

-- The items of the calls, in the order of the calls.
abbrev pub puts : {I : Type 0} → List (Event I) → List I
puts [] = []
puts (put i ∷ events) = i ∷ puts events
puts (turn t ∷ events) = puts events

module _ {E V : Type 0} (client : RedisClient E) (json : Json E V) (no_client : E) where
  abbrev pub State : Type 0
  State = RedisStore client json no_client

  abbrev pub AllEnded : State → Type 0
  AllEnded s = (u : ℕ) → s.threads u ≡ ended

  -- One thread at most has not ended, and there is a client.
  abbrev pub OneWorker : ℕ → State → Type 0
  OneWorker t s = (s.connected ≡ true) × ((u : ℕ) → eqb u t ≡ false → s.threads u ≡ ended)

  abbrev pub Live : ℕ → State → Type 0
  Live t s =
      OneWorker t s × (s.running ≡ true) × ((s.threads t ≡ created) ⊎ (s.threads t ≡ looping))

  abbrev pub view : State → List (WorkItem E V) × client.State
  view s = outlook client json s.server

  abbrev pub grown : State → List (WorkItem E V) → List (WorkItem E V) × client.State
  grown s items = extend client json (view s) items

  abbrev pub after : Event (WorkItem E V) → State → State
  after e s = step client json no_client e s

  unfoldable pub phase_to : ℕ → Phase → State → State
  phase_to t p s = record s { threads = with_phase t p s.threads }

  unfoldable pub worked : State → State
  worked s = record s { server = round client json s.server.queue s.server }

  pub after-created :
      (t : ℕ) (s : State)
      → s.threads t ≡ created
      → s.connected ≡ true
      → after (turn t) s ≡ phase_to t looping s
  unfolding step take_turn phase_to
  after-created t s p c = rw p (rw c refl)

  pub after-looping :
      (t : ℕ) (s : State)
      → s.threads t ≡ looping
      → s.connected ≡ true
      → goes_on client json no_client s.running s.server.queue ≡ true
      → after (turn t) s ≡ worked s
  unfolding step take_turn worked
  after-looping t s p c g = rw p (rw g (rw c refl))

  pub after-leaving :
      (t : ℕ) (s : State)
      → s.threads t ≡ looping
      → goes_on client json no_client s.running s.server.queue ≡ false
      → after (turn t) s ≡ phase_to t ended s
  unfolding step take_turn phase_to
  after-leaving t s p g = rw p (rw g refl)

  pub after-ended : (t : ℕ) (s : State) → s.threads t ≡ ended → after (turn t) s ≡ s
  unfolding step take_turn
  after-ended t s p = rw p refl

  pub view-worked : (s : State) → view (worked s) ≡ view s
  unfolding worked
  view-worked s = outlook-round client json s.server.queue s.server refl

  pub OneWorker-phase_to :
      (t : ℕ) (p : Phase) (s : State) → OneWorker t s → OneWorker t (phase_to t p s)
  unfolding phase_to
  OneWorker-phase_to t p s h = (h.0, λ u e. rw e (h.1 u e))

  pub phase-phase_to : (t : ℕ) (p : Phase) (s : State) → (phase_to t p s).threads t ≡ p
  unfolding phase_to
  phase-phase_to t p s = ground arith

  Live-turn :
      (t u : ℕ) (s : State)
      → Live t s
      → Live t (after (turn u) s) × (view (after (turn u) s) ≡ view s)
  Live-turn t u s h = elim (Bool-cases (eqb u t)) [
    | inl e ↦
        let same : u ≡ t = ground arith in
        elim h.2 [
          | inl p ↦
              rw (same, after-created t s p h.0.0)
                (
                  (
                    OneWorker-phase_to t looping s h.0,
                    unfold phase_to in h.1,
                    inr (phase-phase_to t looping s),
                  ),
                  unfold phase_to in refl,
                )
          | inr p ↦
              rw (same, after-looping t s p h.0.0 (rw h.1 (unfold goes_on in refl)))
                (unfold worked in (h.0, h.1, inr p), view-worked s)
        ]
    | inr e ↦ rw (after-ended u s (h.0.1 u e)) (h, refl)
  ]

  pub Live-run :
      (t : ℕ) (events : List (Event (WorkItem E V))) (s : State)
      → Live t s
      → let s' = run client json no_client events s in Live t s' × (view s' ≡ grown s (puts events))
  unfolding run process_all
  Live-run t [] s h = (h, rw append-nil refl)
  Live-run t (put item ∷ events) s h =
      let rest = Live-run t events (after (put item) s) (unfold step in h) in
      (
        rest.0,
        rest.1
            ∙ ap (λ o. extend client json o (puts events))
                (unfold step in outlook-put client json item s.server)
            ∙ extend-extend client json (view s) item (puts events),
      )
  Live-run t (turn u ∷ events) s h =
      let first = Live-turn t u s h in
      let rest = Live-run t events (after (turn u) s) first.0 in
      (rest.0, rest.1 ∙ ap (λ o. extend client json o (puts events)) first.1)
