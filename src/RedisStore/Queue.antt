-- ===== src/RedisStore/Queue.antt =====
-- The queue between the callers and the worker thread, with calls and rounds in any order.
use mathlib.Core.List.{append_assoc, append-nil}
use as_platform.Base.{◌≡◌, refl, sym, ap, subst, ◌∙◌, List, [], ◌∷◌, ◌++◌}
use as_platform.RedisStore.{RedisClient, Json, WorkItem, process}

-- The queue, the items that are done, oldest first, and the database.
pub record Server (I S : Type 0) : Type 0 where
  pub queue : List I
  pub completed : List I
  pub store : S

-- A caller enqueues an item, or the worker makes a round.
pub data Step (I : Type 0) : Type 0 where
  put : I → Step I
  work : Step I

-- The items of the calls, in the order of the calls.
unfoldable pub calls : {I : Type 0} → List (Step I) → List I
calls [] = []
calls (put i ∷ steps) = i ∷ calls steps
calls (work ∷ steps) = calls steps

module _ {E V : Type 0} (client : RedisClient E) (json : Json E V) where
  abbrev Item : Type 0
  Item = WorkItem E V

  abbrev pub Worker : Type 0
  Worker = Server Item client.State

  -- One round, which an empty queue leaves without work.
  unfoldable pub round : List Item → Worker → Worker
  unfolding process
  round [] v = v
  round (item ∷ rest) v = record {
    queue = rest;
    completed = v.completed ++ (process client json item v.store).0 ∷ [];
    store = (process client json item v.store).1;
  }

  unfoldable pub step : Step Item → Worker → Worker
  unfolding round
  step (put item) v = record v { queue = v.queue ++ item ∷ [] }
  step work v = round v.queue v

  unfoldable pub run : List (Step Item) → Worker → Worker
  unfolding step
  run [] v = v
  run (s ∷ steps) v = run steps (step s v)

  -- `while self._running.is_set() or not self._queue.empty()`, after the event has been cleared: as
  -- many rounds as there are items.
  unfoldable pub drain : List Item → Worker → Worker
  unfolding round
  drain [] v = v
  drain (item ∷ rest) v = drain rest (round v.queue v)

  -- The items processed one after the other, with no queue.
  unfoldable pub process_all : List Item → client.State → List Item × client.State
  unfolding process
  process_all [] s = ([], s)
  process_all (item ∷ items) s = (
    (process client json item s).0 ∷ (process_all items (process client json item s).1).0,
    (process_all items (process client json item s).1).1,
  )

  process_all-append :
      (xs ys : List Item) (s : client.State)
      → process_all (xs ++ ys) s ≡ (
        (process_all xs s).0 ++ (process_all ys (process_all xs s).1).0,
        (process_all ys (process_all xs s).1).1,
      )
  unfolding process_all
  process_all-append [] ys s = refl
  process_all-append (x ∷ xs) ys s = rw (process_all-append xs ys (process client json x s).1)

  -- What is done and what the queue will come to.
  abbrev pub outlook : Worker → List Item × client.State
  outlook v = (v.completed ++ (process_all v.queue v.store).0, (process_all v.queue v.store).1)

  pub outlook-round : (q : List Item) (v : Worker) → v.queue ≡ q → outlook (round q v) ≡ outlook v
  unfolding round process_all
  outlook-round [] v e = refl
  outlook-round (x ∷ q) v e = rw e (rw append_assoc refl)

  -- What is done, with further items behind.
  abbrev pub extend : List Item × client.State → List Item → List Item × client.State
  extend o items = (o.0 ++ (process_all items o.1).0, (process_all items o.1).1)

  pub extend-extend :
      (o : List Item × client.State) (item : Item) (items : List Item)
      → extend (extend o (item ∷ [])) items ≡ extend o (item ∷ items)
  unfolding process_all
  extend-extend o item items = rw append_assoc refl

  pub outlook-put :
      (item : Item) (v : Worker)
      → outlook (record v { queue = v.queue ++ item ∷ [] }) ≡ extend (outlook v) (item ∷ [])
  unfolding process_all
  outlook-put item v = rw (process_all-append v.queue (item ∷ []) v.store) (rw append_assoc refl)

  outlook-run :
      (steps : List (Step Item)) (v : Worker)
      → outlook (run steps v) ≡ extend (outlook v) (calls steps)
  unfolding run step calls process_all
  outlook-run [] v = rw append-nil refl
  outlook-run (put item ∷ steps) v =
      outlook-run steps (record v { queue = v.queue ++ item ∷ [] })
      ∙ ap (λ o. extend o (calls steps)) (outlook-put item v)
      ∙ extend-extend (outlook v) item (calls steps)
  outlook-run (work ∷ steps) v =
      outlook-run steps (round v.queue v)
      ∙ ap (λ o. extend o (calls steps)) (outlook-round v.queue v refl)

  abbrev pub Settled : List Item × client.State → Worker → Type 0
  Settled o v = (v.queue ≡ []) × (v.completed ≡ o.0) × (v.store ≡ o.1)

  drain-Settled : (q : List Item) (v : Worker) → v.queue ≡ q → Settled (outlook v) (drain q v)
  unfolding drain process_all
  drain-Settled [] v e = rw e (refl, sym (append-nil v.completed), refl)
  drain-Settled (item ∷ q) v e =
      subst (λ o. Settled o (drain q (round v.queue v))) (outlook-round v.queue v refl)
        (drain-Settled q (round v.queue v) (rw e (unfold round in refl)))

  abbrev pub fresh_server : client.State → Worker
  fresh_server s = record { queue = []; completed = []; store = s }

  -- Whatever the order in which calls and rounds of the worker interleave, once the worker has drained
  -- the queue every item has been processed, in the order of the calls: the items that are done and
  -- the database are those of processing the calls one after the other, with no queue.
  pub drain-process_all :
      (steps : List (Step Item)) (s : client.State)
      → let v = run steps (fresh_server s) in
        Settled (process_all (calls steps) s) (drain v.queue v)
  drain-process_all steps s =
      let v = run steps (fresh_server s) in
      subst (λ o. Settled o (drain v.queue v))
        (outlook-run steps (fresh_server s) ∙ unfold process_all in refl)
        (drain-Settled v.queue v refl)
