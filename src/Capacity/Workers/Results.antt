-- ===== src/Capacity/Workers/Results.antt =====
-- What the results of a run say of the workers, in any order of their steps.
use as_platform.Base.{
  ℕ, zero, suc, ◌+◌, ◌<◌, ◌≡◌, refl, sym, inl, inr, Bool, true, false, List, [], ◌∷◌, ◌++◌,
  if◌then◌else◌, ltb, arith, Bool-cases,
}
use as_platform.Capacity.{
  CapacityLevelResult, WorkerEnd, finished, expired, Counters, report_all, run_level, run,
}
use as_platform.Capacity.Gap.{Probe, measure_loop_gap, Within, measure_loop_gap-Within}
use as_platform.Capacity.Counts.{finished_in, expired_in, completed_lem, timed_out_lem}
use as_platform.Capacity.Workers.{
  Worker, waiting, judged, reported, WorkerEvent, call_done, wait_ends, takes_lock, LevelState,
  new_level, end_of, judge, report_end, step, worker_of, drive, observed,
}
use as_platform.Capacity.Workers.Fate.{
  counted, reports_done, reports_expired, reports_nothing, drive-counted,
}
use as_platform.Capacity.Workers.Tally.{
  has_finished, has_expired, one_if, tally, tally-with_worker, tally_all,
}

finished_in-append :
    (ends : List WorkerEnd) (b : Bool)
    → finished_in (ends ++ end_of b ∷ []) ≡ finished_in ends + one_if (has_finished (reported b))
finished_in-append [] true = omega arith
finished_in-append [] false = omega arith
finished_in-append (finished ∷ ends) b = omega (arith, finished_in-append ends b)
finished_in-append (expired ∷ ends) b = finished_in-append ends b

expired_in-append :
    (ends : List WorkerEnd) (b : Bool)
    → expired_in (ends ++ end_of b ∷ []) ≡ expired_in ends + one_if (has_expired (reported b))
expired_in-append [] true = omega arith
expired_in-append [] false = omega arith
expired_in-append (finished ∷ ends) b = expired_in-append ends b
expired_in-append (expired ∷ ends) b = omega (arith, expired_in-append ends b)

-- What has been reported is what the workers that have reported came to.
abbrev Tallied : ℕ → LevelState → Type 0
Tallied level s =
    (finished_in s.ends ≡ tally has_finished level s.workers)
    × (expired_in s.ends ≡ tally has_expired level s.workers)

judge-Tallied :
    (level i : ℕ) (w : Worker) (s : LevelState)
    → i < level
    → s.workers i ≡ w
    → Tallied level s
    → Tallied level (judge i w s)
unfolding judge
judge-Tallied level i waiting s l e h =
    let f = tally-with_worker has_finished level i (judged (s.is_done i)) s.workers l in
    let x = tally-with_worker has_expired level i (judged (s.is_done i)) s.workers l in
    let f0 : one_if (has_finished (s.workers i)) ≡ 0 = rw e refl in
    let x0 : one_if (has_expired (s.workers i)) ≡ 0 = rw e refl in
    (omega (arith, f, f0), omega (arith, x, x0))
judge-Tallied level i (judged b) s l e h = h
judge-Tallied level i (reported b) s l e h = h

report_end-Tallied :
    (level i : ℕ) (w : Worker) (s : LevelState)
    → i < level
    → s.workers i ≡ w
    → Tallied level s
    → Tallied level (report_end i w s)
unfolding report_end
report_end-Tallied level i waiting s l e h = h
report_end-Tallied level i (judged b) s l e h =
    let f = tally-with_worker has_finished level i (reported b) s.workers l in
    let x = tally-with_worker has_expired level i (reported b) s.workers l in
    let f0 : one_if (has_finished (s.workers i)) ≡ 0 = rw e refl in
    let x0 : one_if (has_expired (s.workers i)) ≡ 0 = rw e refl in
    (
      omega (arith, f, f0, finished_in-append s.ends b),
      omega (arith, x, x0, expired_in-append s.ends b),
    )
report_end-Tallied level i (reported b) s l e h = h

step-Tallied :
    (level : ℕ) (e : WorkerEvent) (s : LevelState)
    → worker_of e < level
    → Tallied level s
    → Tallied level (step e s)
unfolding step
step-Tallied level (call_done i) s l h = h
step-Tallied level (wait_ends i) s l h = judge-Tallied level i (s.workers i) s l refl h
step-Tallied level (takes_lock i) s l h = report_end-Tallied level i (s.workers i) s l refl h

guarded-Tallied :
    (level : ℕ) (e : WorkerEvent) (s : LevelState)
    → Tallied level s
    → Tallied level (if ltb (worker_of e) level then step e s else s)
guarded-Tallied level e s h = elim (Bool-cases (ltb (worker_of e) level)) [
  | inl l ↦ let low : worker_of e < level = ground arith in rw l (step-Tallied level e s low h)
  | inr g ↦ rw g h
]

drive-Tallied :
    (level : ℕ) (events : List WorkerEvent) (s : LevelState)
    → Tallied level s
    → Tallied level (drive level events s)
unfolding drive
drive-Tallied level [] s h = h
drive-Tallied level (e ∷ events) s h =
    drive-Tallied level events (if ltb (worker_of e) level then step e s else s)
      (guarded-Tallied level e s h)

tally_new : (n : ℕ) (p : Worker → Bool) → p waiting ≡ false → tally p n (λ i. waiting) ≡ 0
tally_new zero p h = refl
tally_new (suc n) p h = rw (h, tally_new n p h) (omega arith)

new_level-Tallied : (level : ℕ) → Tallied level new_level
unfolding new_level
new_level-Tallied level =
    (sym (tally_new level has_finished refl), sym (tally_new level has_expired refl))

-- The result of a level, by what its events make of its workers and how late the event loop was.
abbrev pub Accounts : ℕ → List WorkerEvent → Probe → CapacityLevelResult → Type 0
Accounts level events probe r =
    (r.level ≡ level)
    × (r.completed ≡ counted reports_done level events)
    × (r.timed_out ≡ counted reports_expired level events)
    × (r.completed + r.timed_out + counted reports_nothing level events ≡ level)
    × Within probe r.loop_gap_ms

run_level-Accounts :
    (level : ℕ) (events : List WorkerEvent) (probe : Probe)
    → let s = drive level events new_level in
      Accounts level events probe (run_level level (s.ends, measure_loop_gap probe))
unfolding run_level
run_level-Accounts level events probe =
    let s = drive level events new_level in
    let (done, late, absent) = drive-counted level events in
    let h = drive-Tallied level events new_level (new_level-Tallied level) in
    let none_yet : Counters = record { completed = 0; timed_out = 0 } in
    let c : (report_all s.ends none_yet).completed ≡ counted reports_done level events =
      omega (arith, completed_lem s.ends none_yet, h.0, done) in
    let t : (report_all s.ends none_yet).timed_out ≡ counted reports_expired level events =
      omega (arith, timed_out_lem s.ends none_yet, h.1, late) in
    (
      refl,
      c,
      t,
      omega (arith, c, t, tally_all level s.workers, done, late, absent),
      measure_loop_gap-Within probe,
    )

-- Each result accounts for the workers of its level, in the order of the levels.
abbrev pub AllAccount :
    (ℕ → ℕ → List WorkerEvent) → (ℕ → ℕ → Probe) → ℕ → List ℕ → List CapacityLevelResult → Type 0
AllAccount schedule probe n [] [] = Unit {0}
AllAccount schedule probe n [] (r ∷ rs) = Path ℕ 0 1
AllAccount schedule probe n (level ∷ levels) [] = Path ℕ 0 1
AllAccount schedule probe n (level ∷ levels) (r ∷ rs) =
    Accounts level (schedule n level) (probe n level) r
    × AllAccount schedule probe (suc n) levels rs

-- Whatever the order in which the calls of a level complete, the waits of its workers end and the
-- workers take the lock until the driver stops to wait: a run has one result for each level, in the
-- order in which the levels are given, which it does not sort. It counts as completed exactly the
-- workers of the level whose call completes before the first end of their wait and that take the lock
-- after it, as timed out those whose call does not and that take the lock, and with the others, which
-- do not report, these make up the level. A gap of the event loop that it reports is no longer than two
-- seconds and the time that passes before the driver waits for the probe.
pub run-AllAccount :
    (schedule : ℕ → ℕ → List WorkerEvent) (probe : ℕ → ℕ → Probe) (n : ℕ) (levels : List ℕ)
    → AllAccount schedule probe n levels (run (observed schedule probe) n levels)
unfolding run observed
run-AllAccount schedule probe n [] = tt
run-AllAccount schedule probe n (level ∷ levels) = (
  run_level-Accounts level (schedule n level) (probe n level),
  run-AllAccount schedule probe (suc n) levels,
)
