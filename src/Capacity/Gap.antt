-- ===== src/Capacity/Gap.antt =====
-- capacity_harness.py, `_measure_loop_gap`: how late the event loop runs a callback. sippy and the
-- clock are arguments; times are in milliseconds.
use as_platform.Base.{
  ℕ, ◌+◌, ◌-◌, ◌≤◌, Bool, true, false, not, Option, none, some, arith, if◌then◌else◌, leb, inl, inr,
  Bool-cases,
}

-- Whether sippy can be imported and whether it takes the callback, when the callback is handed over,
-- from when the driver waits for it, and when the loop runs it, if it does.
pub record Probe : Type 0 where
  pub is_importable : Bool
  pub is_refused : Bool
  pub scheduled_at : ℕ
  pub waiting_from : ℕ
  pub runs_at : Option ℕ

-- `event.wait(timeout=2.0)`, and what the probe has measured by then.
unfoldable in_time : Option ℕ → Probe → Option ℕ
in_time none p = none
in_time (some t) p = if leb t (p.waiting_from + 2000) then some (t - p.scheduled_at) else none

unfoldable pub measure_loop_gap : Probe → Option ℕ
unfolding in_time
measure_loop_gap p =
    if not p.is_importable then none else if p.is_refused then none else in_time p.runs_at p

-- A gap is no longer than the time to the wait and the wait itself.
abbrev pub Within : Probe → Option ℕ → Type 0
Within p none = Unit {0}
Within p (some gap) = gap ≤ (p.waiting_from - p.scheduled_at) + 2000

in_time-Within : (o : Option ℕ) (p : Probe) → Within p (in_time o p)
unfolding in_time
in_time-Within none p = tt
in_time-Within (some t) p = elim (Bool-cases (leb t (p.waiting_from + 2000))) [
  | inl early ↦ rw early (ground arith)
  | inr late ↦ rw late tt
]

asked-Within :
    (a b : Bool) (p : Probe) (o : Option ℕ)
    → Within p o
    → Within p (if not a then none else if b then none else o)
asked-Within false b p o h = tt
asked-Within true true p o h = tt
asked-Within true false p o h = h

pub measure_loop_gap-Within : (p : Probe) → Within p (measure_loop_gap p)
unfolding measure_loop_gap
measure_loop_gap-Within p =
    asked-Within p.is_importable p.is_refused p (in_time p.runs_at p) (in_time-Within p.runs_at p)
