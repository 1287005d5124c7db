-- ===== src/Capacity/Counts.antt =====
-- capacity_harness.py: what the results of a run say of the levels.
use as_platform.Base.{ℕ, suc, ◌+◌, ◌≤◌, ◌≡◌, refl, List, [], ◌∷◌, Option, length, arith}
use as_platform.Capacity.{
  CapacityLevelResult, WorkerEnd, finished, expired, Counters, report, report_all, run_level, run,
}

-- How many of the workers finished, and how many did not.
abbrev pub finished_in : List WorkerEnd → ℕ
finished_in [] = 0
finished_in (finished ∷ ends) = suc (finished_in ends)
finished_in (expired ∷ ends) = finished_in ends

abbrev pub expired_in : List WorkerEnd → ℕ
expired_in [] = 0
expired_in (finished ∷ ends) = expired_in ends
expired_in (expired ∷ ends) = suc (expired_in ends)

pub completed_lem :
    (ends : List WorkerEnd) (c : Counters)
    → (report_all ends c).completed ≡ finished_in ends + c.completed
unfolding report_all report
completed_lem [] c = omega arith
completed_lem (finished ∷ ends) c = omega (arith, completed_lem ends (report finished c))
completed_lem (expired ∷ ends) c = completed_lem ends (report expired c)

pub timed_out_lem :
    (ends : List WorkerEnd) (c : Counters)
    → (report_all ends c).timed_out ≡ expired_in ends + c.timed_out
unfolding report_all report
timed_out_lem [] c = omega arith
timed_out_lem (finished ∷ ends) c = timed_out_lem ends (report finished c)
timed_out_lem (expired ∷ ends) c = omega (arith, timed_out_lem ends (report expired c))

all_ends : (ends : List WorkerEnd) → finished_in ends + expired_in ends ≡ length ends
all_ends [] = omega arith
all_ends (finished ∷ ends) = omega (arith, all_ends ends)
all_ends (expired ∷ ends) = omega (arith, all_ends ends)

-- A result counts each worker that reported once, under what it came to, and no more workers than the
-- level has.
abbrev Counted : List WorkerEnd → CapacityLevelResult → Type 0
Counted ends r =
    (r.completed ≡ finished_in ends)
    × (r.timed_out ≡ expired_in ends)
    × (r.completed + r.timed_out ≤ r.level)

run_level-Counted :
    (level : ℕ) (ends : List WorkerEnd) (gap : Option ℕ)
    → length ends ≤ level
    → Counted ends (run_level level (ends, gap))
unfolding run_level
run_level-Counted level ends gap h =
    let zero_counters : Counters = record { completed = 0; timed_out = 0 } in
    let c : (report_all ends zero_counters).completed ≡ finished_in ends =
      omega (arith, completed_lem ends zero_counters) in
    let t : (report_all ends zero_counters).timed_out ≡ expired_in ends =
      omega (arith, timed_out_lem ends zero_counters) in
    (c, t, omega (arith, c, t, all_ends ends))

-- Each result belongs to its level, in the order of the levels.
abbrev Levelled :
    (ℕ → ℕ → List WorkerEnd × Option ℕ) → ℕ → List ℕ → List CapacityLevelResult → Type 0
Levelled observe n [] [] = Unit {0}
Levelled observe n [] (r ∷ rs) = Path ℕ 0 1
Levelled observe n (level ∷ levels) [] = Path ℕ 0 1
Levelled observe n (level ∷ levels) (r ∷ rs) =
    (r.level ≡ level) × Counted (observe n level).0 r × Levelled observe (suc n) levels rs

-- A run has one result for each level, in the order in which the levels are given, which it does not
-- sort; each result counts the workers that finished and those that did not, each worker that
-- reported once, and together no more than the level, if no level has more workers than its number.
run-Levelled :
    (observe : ℕ → ℕ → List WorkerEnd × Option ℕ) (n : ℕ) (levels : List ℕ)
    → ((i level : ℕ) → length (observe i level).0 ≤ level)
    → Levelled observe n levels (run observe n levels)
unfolding run run_level
run-Levelled observe n [] h = tt
run-Levelled observe n (level ∷ levels) h = (
  refl,
  run_level-Counted level (observe n level).0 (observe n level).1 (h n level),
  run-Levelled observe (suc n) levels h,
)
