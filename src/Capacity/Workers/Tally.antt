-- ===== src/Capacity/Workers/Tally.antt =====
-- How many workers of a level have come to what.
use as_platform.Base.{
  ℕ, zero, suc, ◌+◌, ◌<◌, ◌≤◌, ◌≡◌, refl, inl, inr, Bool, true, false, if◌then◌else◌, eqb, arith,
  Bool-cases,
}
use as_platform.Capacity.Workers.{Worker, waiting, judged, reported, with_worker}

abbrev pub has_finished : Worker → Bool
has_finished waiting = false
has_finished (judged b) = false
has_finished (reported true) = true
has_finished (reported false) = false

abbrev pub has_expired : Worker → Bool
has_expired waiting = false
has_expired (judged b) = false
has_expired (reported true) = false
has_expired (reported false) = true

abbrev pub is_missing : Worker → Bool
is_missing waiting = true
is_missing (judged b) = true
is_missing (reported b) = false

abbrev pub one_if : Bool → ℕ
one_if b = if b then 1 else 0

-- How many of the first workers pass a test.
abbrev pub tally : (Worker → Bool) → ℕ → (ℕ → Worker) → ℕ
tally p zero workers = 0
tally p (suc n) workers = (if p (workers n) then 1 else 0) + tally p n workers

tally-with_beyond :
    (p : Worker → Bool) (n i : ℕ) (w : Worker) (workers : ℕ → Worker)
    → n ≤ i
    → tally p n (with_worker i w workers) ≡ tally p n workers
tally-with_beyond p zero i w workers h = refl
tally-with_beyond p (suc n) i w workers h =
    let differ : eqb n i ≡ false = ground arith in
    let rest = tally-with_beyond p n i w workers (omega arith) in rw (differ, rest) refl

pub tally-with_worker :
    (p : Worker → Bool) (n i : ℕ) (w : Worker) (workers : ℕ → Worker)
    → i < n
    → tally p n (with_worker i w workers) + one_if (p (workers i))
      ≡ tally p n workers + one_if (p w)
tally-with_worker p zero i w workers h = absurd (omega arith)
tally-with_worker p (suc n) i w workers h = elim (Bool-cases (eqb n i)) [
  | inl e ↦
      let same : n ≡ i = ground arith in
      let rest = tally-with_beyond p n i w workers (omega arith) in rw (e, rest, same) (omega arith)
  | inr e ↦
      let rest = tally-with_worker p n i w workers (ground arith) in rw e (omega (arith, rest))
]

pub tally_all :
    (n : ℕ) (workers : ℕ → Worker)
    → tally has_finished n workers + tally has_expired n workers + tally is_missing n workers ≡ n
tally_all zero workers = omega arith
tally_all (suc n) workers = omega (arith, tally_all n workers, one_of (workers n))
  where
    one_of :
        (w : Worker) → one_if (has_finished w) + one_if (has_expired w) + one_if (is_missing w) ≡ 1
    one_of waiting = omega arith
    one_of (judged b) = omega arith
    one_of (reported true) = omega arith
    one_of (reported false) = omega arith
