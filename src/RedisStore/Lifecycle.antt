-- ===== src/RedisStore/Lifecycle.antt =====
-- state_store.py, `RedisStateStore`: `start`, `stop`, the loop of the worker thread and the calls that
-- wait for it. Threads interleave as a list of events: a call enqueues its item, or a thread gets a
-- turn. What `from_url` (with the import of `redis`) and `ping` come to are arguments.
pub mod Worker
pub mod Session
use as_platform.Base.{
  ℕ, zero, suc, Bool, true, false, List, [], ◌∷◌, ◌++◌, Option, none, some, Reply, value, failed,
  if◌then◌else◌, eqb,
}
use as_platform.RedisStore.{RedisClient, Json, WorkItem, settle, finished}
use as_platform.RedisStore.Queue.{Server, round}

-- A thread of `_run`: not yet at its assertion, in its loop, or at its end.
pub data Phase : Type 0 where
  created looping ended : Phase

-- `threads` has every thread that the store has ever made, by number, of which `worker` is the one
-- that the store knows. `connected` says whether `_client` is set.
pub record Store (I S : Type 0) : Type 0 where
  pub server : Server I S
  pub running : Bool
  pub connected : Bool
  pub worker : Option ℕ
  pub next_thread : ℕ
  pub threads : ℕ → Phase

pub data Event (I : Type 0) : Type 0 where
  put : I → Event I
  turn : ℕ → Event I

abbrev pub with_phase : ℕ → Phase → (ℕ → Phase) → ℕ → Phase
with_phase t p threads u = if eqb u t then p else threads u

module _ {E V : Type 0} (client : RedisClient E) (json : Json E V) (no_client : E) where
  abbrev pub RedisStore : Type 0
  RedisStore = Store (WorkItem E V) client.State

  -- The store as it is made, without a connection.
  unfoldable pub new_store : client.State → RedisStore
  new_store s = record {
    server = record { queue = []; completed = []; store = s };
    running = false;
    connected = false;
    worker = none;
    next_thread = 0;
    threads = λ t. ended;
  }

  -- A round without a client, whose every operation raises on `None`.
  unfoldable failed_round :
      List (WorkItem E V) → Server (WorkItem E V) client.State → Server (WorkItem E V) client.State
  unfolding finished
  failed_round [] v = v
  failed_round (item ∷ rest) v = record v {
    queue = rest;
    completed = v.completed ++ (finished client json item (failed no_client, v.store)).0 ∷ [];
  }

  abbrev work_round : Bool → Server (WorkItem E V) client.State → Server (WorkItem E V) client.State
  work_round true v = round client json v.queue v
  work_round false v = failed_round v.queue v

  -- `while self._running.is_set() or not self._queue.empty()`: whether the loop goes on.
  unfoldable goes_on : Bool → List (WorkItem E V) → Bool
  goes_on true queue = true
  goes_on false [] = false
  goes_on false (item ∷ queue) = true

  abbrev in_phase : ℕ → Phase → RedisStore → RedisStore
  in_phase t p s = record s { threads = with_phase t p s.threads }

  -- One turn of a thread: its assertion, or its test and a round.
  unfoldable take_turn : ℕ → Phase → RedisStore → RedisStore
  unfolding failed_round goes_on round
  take_turn t created s = in_phase t (if s.connected then looping else ended) s
  take_turn t looping s =
      if goes_on s.running s.server.queue
      then record s { server = work_round s.connected s.server }
      else in_phase t ended s
  take_turn t ended s = s

  unfoldable pub step : Event (WorkItem E V) → RedisStore → RedisStore
  unfolding take_turn
  step (put item) s = record s { server = record s.server { queue = s.server.queue ++ item ∷ [] } }
  step (turn t) s = take_turn t (s.threads t) s

  unfoldable pub run : List (Event (WorkItem E V)) → RedisStore → RedisStore
  unfolding step
  run [] s = s
  run (e ∷ events) s = run events (step e s)

  unfoldable pub start :
      Reply E (Unit {0}) → Reply E (Unit {0}) → RedisStore → Reply E (Unit {0}) × RedisStore
  start (failed e) ping s = (failed e, s)
  start (value _) (failed e) s = (failed e, record s { connected = true })
  start (value _) (value _) s = (
    value tt,
    record s {
      connected = true;
      running = true;
      worker = some s.next_thread;
      next_thread = suc s.next_thread;
      threads = with_phase s.next_thread created s.threads;
    },
  )

  -- `stop`, with what the threads do while it waits for the worker.
  unfoldable pub stop : List (Event (WorkItem E V)) → RedisStore → RedisStore
  unfolding run
  stop meanwhile s = record (run meanwhile (record s { running = false })) {
    worker = none;
    connected = false;
  }
