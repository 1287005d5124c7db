-- ===== src/Capacity/Workers.antt =====
-- capacity_harness.py, `_run_level`: the workers of a level, whose steps interleave in any order. A
-- worker waits for its call or until its time is up, and reports under the lock. When the time of a
-- wait is up is for the order of the events.
pub mod Tally
pub mod Fate
pub mod Results
use as_platform.Base.{
  ℕ, zero, suc, Bool, true, false, List, [], ◌∷◌, ◌++◌, Option, if◌then◌else◌, eqb, ltb,
}
use as_platform.Capacity.Gap.{Probe, measure_loop_gap}
use as_platform.Capacity.{CapacityLevelResult, WorkerEnd, finished, expired, run_level, run}

-- A worker waits for its call, or it knows whether the call has completed and has not reported yet, or
-- it has reported.
pub data Worker : Type 0 where
  waiting : Worker
  judged : Bool → Worker
  reported : Bool → Worker

-- A call completes, the wait of a worker ends, or a worker takes the lock.
pub data WorkerEvent : Type 0 where
  call_done wait_ends takes_lock : ℕ → WorkerEvent

-- `is_done` has the events of the calls; `ends` what has been reported, in order.
pub record LevelState : Type 0 where
  pub is_done : ℕ → Bool
  pub workers : ℕ → Worker
  pub ends : List WorkerEnd

unfoldable pub new_level : LevelState
new_level = record { is_done = λ i. false; workers = λ i. waiting; ends = [] }

abbrev pub with_worker : ℕ → Worker → (ℕ → Worker) → ℕ → Worker
with_worker i w workers j = if eqb j i then w else workers j

abbrev pub end_of : Bool → WorkerEnd
end_of true = finished
end_of false = expired

-- `finished = w.done.wait(timeout=…)`
unfoldable pub judge : ℕ → Worker → LevelState → LevelState
judge i waiting s = record s { workers = with_worker i (judged (s.is_done i)) s.workers }
judge i (judged b) s = s
judge i (reported b) s = s

-- `with results_lock: …`
unfoldable pub report_end : ℕ → Worker → LevelState → LevelState
report_end i waiting s = s
report_end i (judged b) s = record s {
  workers = with_worker i (reported b) s.workers;
  ends = s.ends ++ end_of b ∷ [];
}
report_end i (reported b) s = s

unfoldable pub step : WorkerEvent → LevelState → LevelState
unfolding judge report_end
step (call_done i) s = record s { is_done = λ j. if eqb j i then true else s.is_done j }
step (wait_ends i) s = judge i (s.workers i) s
step (takes_lock i) s = report_end i (s.workers i) s

-- The number of the worker that an event is about.
abbrev pub worker_of : WorkerEvent → ℕ
worker_of (call_done i) = i
worker_of (wait_ends i) = i
worker_of (takes_lock i) = i

-- The events up to the moment when the driver has stopped to wait; a level has no other workers.
unfoldable pub drive : ℕ → List WorkerEvent → LevelState → LevelState
unfolding step
drive level [] s = s
drive level (e ∷ events) s = drive level events (if ltb (worker_of e) level then step e s else s)

-- What `run_level` is handed.
unfoldable pub observed :
    (ℕ → ℕ → List WorkerEvent) → (ℕ → ℕ → Probe) → ℕ → ℕ → List WorkerEnd × Option ℕ
unfolding drive new_level measure_loop_gap
observed schedule probe n level =
    ((drive level (schedule n level) new_level).ends, measure_loop_gap (probe n level))
