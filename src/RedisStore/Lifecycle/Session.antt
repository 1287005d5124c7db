-- ===== src/RedisStore/Lifecycle/Session.antt =====
-- From a start of the Redis store to its next stop.
use mathlib.Core.List.{append-nil}
use as_platform.Base.{
  ℕ, suc, ◌+◌, ◌≤◌, ◌≡◌, refl, sym, ap, ◌∙◌, subst, ◌⊎◌, inl, inr, false, List, [], ◌∷◌, none,
  value, arith, length, eqb, if◌then◌else◌, map, Bool-cases,
}
use as_platform.RedisStore.{RedisClient, Json, WorkItem}
use as_platform.RedisStore.Queue.{round, process_all, Settled}
use as_platform.RedisStore.Lifecycle.{
  Phase, created, looping, ended, Event, turn, run, start, stop, goes_on,
}
use as_platform.RedisStore.Lifecycle.Worker.{
  puts, State, AllEnded, OneWorker, Live, view, grown, after, phase_to, worked, after-created,
  after-looping, after-leaving, after-ended, view-worked, OneWorker-phase_to, phase-phase_to,
  Live-run,
}

-- How often a thread gets a turn.
abbrev turns_of : ℕ → List ℕ → ℕ
turns_of t [] = 0
turns_of t (u ∷ turns) = (if eqb u t then 1 else 0) + turns_of t turns

-- How many turns a worker needs at least to work off a queue and to end.
abbrev Left : {I : Type 0} → Phase → List I → ℕ → Type 0
Left created queue n = length queue + 2 ≤ n
Left looping queue n = length queue + 1 ≤ n
Left ended queue n = queue ≡ []

module _ {E V : Type 0} (client : RedisClient E) (json : Json E V) (no_client : E) where
  -- The worker is told to stop, and `n` turns are left to it.
  abbrev Stopping : ℕ → ℕ → State client json no_client → Type 0
  Stopping t n s =
      OneWorker client json no_client t s
      × (s.running ≡ false)
      × Left (s.threads t) s.server.queue n

  Stopping-turn_worker :
      (t n : ℕ) (s : State client json no_client) (p : Phase) (q : List (WorkItem E V))
      → OneWorker client json no_client t s
      → s.running ≡ false
      → s.threads t ≡ p
      → s.server.queue ≡ q
      → Left p q (suc n)
      → Stopping t n (after client json no_client (turn t) s)
        × (view client json no_client (after client json no_client (turn t) s)
            ≡ view client json no_client s)
  Stopping-turn_worker t n s created q o r p e l =
      let left : length q + 1 ≤ n = omega arith in
      rw (after-created client json no_client t s p o.0) (
        (
          OneWorker-phase_to client json no_client t looping s o,
          unfold phase_to in r,
          rw (phase-phase_to client json no_client t looping s) (unfold phase_to in rw e left),
        ),
        unfold phase_to in refl,
      )
  Stopping-turn_worker t n s looping [] o r p e l =
      rw (after-leaving client json no_client t s p (rw r (rw e (unfold goes_on in refl)))) (
        (
          OneWorker-phase_to client json no_client t ended s o,
          unfold phase_to in r,
          rw (phase-phase_to client json no_client t ended s) (unfold phase_to in e),
        ),
        unfold phase_to in refl,
      )
  Stopping-turn_worker t n s looping (item ∷ q) o r p e l =
      let left : length q + 1 ≤ n = omega arith in
      rw (after-looping client json no_client t s p o.0 (rw r (rw e (unfold goes_on in refl)))) (
        (
          unfold worked in o,
          unfold worked in r,
          unfold worked in rw p (rw e (unfold round in left)),
        ),
        view-worked client json no_client s,
      )
  Stopping-turn_worker t n s ended q o r p e l =
      rw (after-ended client json no_client t s p) ((o, r, rw p (e ∙ l)), refl)

  Stopping-turn :
      (t u n : ℕ) (s : State client json no_client)
      → Stopping t ((if eqb u t then 1 else 0) + n) s
      → Stopping t n (after client json no_client (turn u) s)
        × (view client json no_client (after client json no_client (turn u) s)
            ≡ view client json no_client s)
  Stopping-turn t u n s h = elim (Bool-cases (eqb u t)) [
    | inl e ↦
        let same : u ≡ t = ground arith in
        let more : (if eqb u t then 1 else 0) + n ≡ suc n = rw e (omega arith) in
        rw same (
          Stopping-turn_worker t n s (s.threads t) s.server.queue h.0 h.1 refl refl
            (subst (λ m. Left (s.threads t) s.server.queue m) more h.2))
    | inr e ↦
        let less : (if eqb u t then 1 else 0) + n ≡ n = rw e (omega arith) in
        rw (after-ended client json no_client u s (h.0.1 u e))
          (subst (λ m. Stopping t m s) less h, refl)
  ]

  Stopping-run :
      (t : ℕ) (turns : List ℕ) (s : State client json no_client)
      → Stopping t (turns_of t turns) s
      → let s' = run client json no_client (map turn turns) s in
        Stopping t 0 s' × (view client json no_client s' ≡ view client json no_client s)
  unfolding run
  Stopping-run t [] s h = (h, refl)
  Stopping-run t (u ∷ turns) s h =
      let first = Stopping-turn t u (turns_of t turns) s h in
      let rest = Stopping-run t turns (after client json no_client (turn u) s) first.0 in
      (rest.0, rest.1 ∙ first.1)

  Left-enough :
      (p : Phase) (q : List (WorkItem E V)) (n : ℕ)
      → (p ≡ created) ⊎ (p ≡ looping)
      → length q + 2 ≤ n
      → Left p q n
  Left-enough p q n (inl e) h = rw e h
  Left-enough p q n (inr e) h = rw e (omega arith)

  Left-over : (p : Phase) (q : List (WorkItem E V)) → Left p q 0 → (p ≡ ended) × (q ≡ [])
  Left-over created q h = absurd (omega arith)
  Left-over looping q h = absurd (omega arith)
  Left-over ended q h = (refl, h)

  started :
      (s : State client json no_client)
      → AllEnded client json no_client s
      → Live client json no_client s.next_thread
          (start client json no_client (value tt) (value tt) s).1
  unfolding start
  started s h = ((refl, λ u e. rw e (h u)), refl, inl (ground arith))

  grown-started :
      (s : State client json no_client) (items : List (WorkItem E V))
      → grown client json no_client (start client json no_client (value tt) (value tt) s).1 items
        ≡ grown client json no_client s items
  unfolding start
  grown-started s items = refl

  all_ended :
      (t : ℕ) (s : State client json no_client)
      → s.threads t ≡ ended
      → ((u : ℕ) → eqb u t ≡ false → s.threads u ≡ ended)
      → AllEnded client json no_client s
  all_ended t s p h u = elim (Bool-cases (eqb u t)) [
    | inl e ↦ let same : u ≡ t = ground arith in rw same p
    | inr e ↦ h u e
  ]

  Settled-view :
      (s : State client json no_client) (o : List (WorkItem E V) × client.State)
      → s.server.queue ≡ []
      → view client json no_client s ≡ o
      → Settled client json o s.server
  unfolding process_all
  Settled-view s o e v =
      let here : view client json no_client s ≡ (s.server.completed, s.server.store) =
        rw e (rw append-nil refl) in
      (
        e,
        ap (λ (x : List (WorkItem E V) × client.State). x.0) (sym here ∙ v),
        ap (λ (x : List (WorkItem E V) × client.State). x.1) (sym here ∙ v),
      )

  -- From a start that raises nothing, while no other thread is left, to a stop, with calls and turns
  -- in any order between them: if the new worker gets two more turns than the queue is long while
  -- `stop` waits for it, all threads have ended, and every item has been processed with the client,
  -- those left over from before first, then those of the calls in their order; nothing is left in the
  -- queue, and the store has neither a worker nor a client.
  pub stop-Settled :
      (s : State client json no_client) (events : List (Event (WorkItem E V))) (turns : List ℕ)
      → AllEnded client json no_client s
      → let s0 = (start client json no_client (value tt) (value tt) s).1 in
        let s1 = run client json no_client events s0 in
        let s2 = stop client json no_client (map turn turns) s1 in
        length s1.server.queue + 2 ≤ turns_of s.next_thread turns
        → AllEnded client json no_client s2
          × Settled client json (grown client json no_client s (puts events)) s2.server
          × (s2.worker ≡ none)
          × (s2.connected ≡ false)
  unfolding start stop
  stop-Settled s events turns h m =
      let t = s.next_thread in
      let s0 = (start client json no_client (value tt) (value tt) s).1 in
      let live = Live-run client json no_client t events s0 (started s h) in
      let s1 = run client json no_client events s0 in
      let s3 : State client json no_client = record s1 { running = false } in
      let left = Left-enough (s1.threads t) s1.server.queue (turns_of t turns) live.0.2 m in
      let stopped = Stopping-run t turns s3 (live.0.0, refl, left) in
      let s2 = run client json no_client (map turn turns) s3 in
      let over = Left-over (s2.threads t) s2.server.queue stopped.0.2 in
      (
        all_ended t s2 over.0 stopped.0.0.1,
        Settled-view s2 _ over.1 (stopped.1 ∙ live.1 ∙ grown-started s (puts events)),
        refl,
        refl,
      )
