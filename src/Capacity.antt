-- ===== src/Capacity.antt =====
-- capacity_harness.py, `CapacityDriver`: what it counts at each level. How the workers of a level come
-- to an end, in the order in which they take the lock while the driver waits for them, and the gap
-- that it measures, are arguments here; Workers and Gap say where they come from.
pub mod Gap
pub mod Counts
pub mod Workers
use as_platform.Base.{ℕ, zero, suc, List, [], ◌∷◌, Option, none, some}

pub record CapacityLevelResult : Type 0 where
  pub level : ℕ
  pub completed : ℕ
  pub timed_out : ℕ
  pub loop_gap_ms : Option ℕ

-- `CapacityDriver`: what it is made with. How long a call may take is for the schedule of the workers.
pub record Driver : Type 0 where
  pub levels : List ℕ
  pub timeout : ℕ

unfoldable new_driver : Option (List ℕ) → ℕ → Driver
new_driver levels timeout = record {
  levels = elim levels [ none ↦ 1 ∷ 4 ∷ 8 ∷ 16 ∷ 32 ∷ 64 ∷ 128 ∷ [] | some given ↦ given ];
  timeout = timeout;
}

-- How the wait of a worker for its call ends.
pub data WorkerEnd : Type 0 where
  finished expired : WorkerEnd

-- The two counters of a level.
pub record Counters : Type 0 where
  pub completed : ℕ
  pub timed_out : ℕ

-- `with results_lock: …`
unfoldable pub report : WorkerEnd → Counters → Counters
report finished c = record c { completed = suc c.completed }
report expired c = record c { timed_out = suc c.timed_out }

unfoldable pub report_all : List WorkerEnd → Counters → Counters
unfolding report
report_all [] c = c
report_all (e ∷ ends) c = report_all ends (report e c)

-- `_run_level`: a worker that reports after the driver has stopped waiting is not counted.
unfoldable pub run_level : ℕ → List WorkerEnd × Option ℕ → CapacityLevelResult
unfolding report_all
run_level level (ends, gap) =
    let c = report_all ends (record { completed = 0; timed_out = 0 }) in
    record { level = level; completed = c.completed; timed_out = c.timed_out; loop_gap_ms = gap }

-- `run`, from the number of levels that have been run.
unfoldable pub run : (ℕ → ℕ → List WorkerEnd × Option ℕ) → ℕ → List ℕ → List CapacityLevelResult
unfolding run_level
run observe n [] = []
run observe n (level ∷ levels) = run_level level (observe n level) ∷ run observe (suc n) levels
