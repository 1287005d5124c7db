-- ===== src/Capacity/Workers/Fate.antt =====
-- What becomes of a worker, read off the order of the events alone.
use as_platform.Base.{
  ℕ, zero, suc, ◌+◌, ◌<◌, ◌≡◌, refl, ◌∙◌, inl, inr, Bool, true, false, List, [], ◌∷◌, Option, none,
  some, if◌then◌else◌, eqb, ltb, arith, Bool-cases,
}
use as_platform.Capacity.Workers.{
  Worker, waiting, judged, reported, WorkerEvent, call_done, wait_ends, takes_lock, LevelState,
  new_level, judge, report_end, step, worker_of, drive,
}
use as_platform.Capacity.Workers.Tally.{has_finished, has_expired, is_missing, tally}

-- A worker whose wait has ended reports how it ended when it takes the lock, if it does.
abbrev pub reports : ℕ → Bool → List WorkerEvent → Option Bool
reports i b [] = none
reports i b (call_done j ∷ events) = reports i b events
reports i b (wait_ends j ∷ events) = reports i b events
reports i b (takes_lock j ∷ events) = if eqb i j then some b else reports i b events

-- A worker waits from the start. Its wait ends well if its call has completed before.
abbrev pub fate : ℕ → Bool → List WorkerEvent → Option Bool
fate i done [] = none
fate i done (call_done j ∷ events) = fate i (if eqb i j then true else done) events
fate i done (wait_ends j ∷ events) = if eqb i j then reports i done events else fate i done events
fate i done (takes_lock j ∷ events) = fate i done events

-- The workers whose fate passes a test, among the first ones.
abbrev pub counted : (Option Bool → Bool) → ℕ → List WorkerEvent → ℕ
counted p zero events = 0
counted p (suc n) events = (if p (fate n false events) then 1 else 0) + counted p n events

abbrev pub reports_done : Option Bool → Bool
reports_done none = false
reports_done (some b) = b

abbrev pub reports_expired : Option Bool → Bool
reports_expired none = false
reports_expired (some true) = false
reports_expired (some false) = true

abbrev pub reports_nothing : Option Bool → Bool
reports_nothing none = true
reports_nothing (some b) = false

abbrev outcome : Worker → Option Bool
outcome waiting = none
outcome (judged b) = none
outcome (reported b) = some b

-- The fate of a worker that is already in a state.
abbrev onward : ℕ → Worker → Bool → List WorkerEvent → Option Bool
onward i waiting done events = fate i done events
onward i (judged b) done events = reports i b events
onward i (reported b) done events = some b

onward-nil : (i : ℕ) (w : Worker) (done : Bool) → outcome w ≡ onward i w done []
onward-nil i waiting done = refl
onward-nil i (judged b) done = refl
onward-nil i (reported b) done = refl

module _ (i : ℕ) (events : List WorkerEvent) where
  onward-other :
      (e : WorkerEvent) (w : Worker) (done : Bool)
      → eqb i (worker_of e) ≡ false
      → onward i w done events ≡ onward i w done (e ∷ events)
  onward-other (call_done j) waiting done f = rw f refl
  onward-other (wait_ends j) waiting done f = rw f refl
  onward-other (takes_lock j) waiting done f = refl
  onward-other (call_done j) (judged b) done f = refl
  onward-other (wait_ends j) (judged b) done f = refl
  onward-other (takes_lock j) (judged b) done f = rw f refl
  onward-other e (reported b) done f = refl

  onward-call_done :
      (j : ℕ) (w : Worker) (done : Bool)
      → onward i w (if eqb i j then true else done) events ≡ onward i w done (call_done j ∷ events)
  onward-call_done j waiting done = refl
  onward-call_done j (judged b) done = refl
  onward-call_done j (reported b) done = refl

  judge-onward :
      (s : LevelState) (w : Worker)
      → s.workers i ≡ w
      → let t = judge i w s in
        onward i (t.workers i) (t.is_done i) events
        ≡ onward i w (s.is_done i) (wait_ends i ∷ events)
  unfolding judge
  judge-onward s waiting e = let self : eqb i i ≡ true = ground arith in rw self refl
  judge-onward s (judged b) e = rw e refl
  judge-onward s (reported b) e = rw e refl

  report_end-onward :
      (s : LevelState) (w : Worker)
      → s.workers i ≡ w
      → let t = report_end i w s in
        onward i (t.workers i) (t.is_done i) events
        ≡ onward i w (s.is_done i) (takes_lock i ∷ events)
  unfolding report_end
  report_end-onward s waiting e = rw e refl
  report_end-onward s (judged b) e = let self : eqb i i ≡ true = ground arith in rw self refl
  report_end-onward s (reported b) e = rw e refl

  judge-apart :
      (j : ℕ) (s : LevelState) (w : Worker)
      → eqb i j ≡ false
      → ((judge j w s).workers i ≡ s.workers i) × ((judge j w s).is_done i ≡ s.is_done i)
  unfolding judge
  judge-apart j s waiting f = (rw f refl, refl)
  judge-apart j s (judged b) f = (refl, refl)
  judge-apart j s (reported b) f = (refl, refl)

  report_end-apart :
      (j : ℕ) (s : LevelState) (w : Worker)
      → eqb i j ≡ false
      → ((report_end j w s).workers i ≡ s.workers i) × ((report_end j w s).is_done i ≡ s.is_done i)
  unfolding report_end
  report_end-apart j s waiting f = (refl, refl)
  report_end-apart j s (judged b) f = (rw f refl, refl)
  report_end-apart j s (reported b) f = (refl, refl)

  -- What one step makes of the worker is what the event stands for.
  step-onward :
      (e : WorkerEvent) (s : LevelState)
      → onward i ((step e s).workers i) ((step e s).is_done i) events
        ≡ onward i (s.workers i) (s.is_done i) (e ∷ events)
  unfolding step
  step-onward (call_done j) s = onward-call_done j (s.workers i) (s.is_done i)
  step-onward (wait_ends j) s = elim (Bool-cases (eqb i j)) [
    | inl t ↦ let same : j ≡ i = ground arith in rw same (judge-onward s (s.workers i) refl)
    | inr f ↦
        let (w, d) = judge-apart j s (s.workers j) f in
        rw (w, d) (onward-other (wait_ends j) (s.workers i) (s.is_done i) f)
  ]
  step-onward (takes_lock j) s = elim (Bool-cases (eqb i j)) [
    | inl t ↦ let same : j ≡ i = ground arith in rw same (report_end-onward s (s.workers i) refl)
    | inr f ↦
        let (w, d) = report_end-apart j s (s.workers j) f in
        rw (w, d) (onward-other (takes_lock j) (s.workers i) (s.is_done i) f)
  ]

guarded-onward :
    (level i : ℕ) (events : List WorkerEvent) (e : WorkerEvent) (s : LevelState)
    → i < level
    → let t = if ltb (worker_of e) level then step e s else s in
      onward i (t.workers i) (t.is_done i) events
      ≡ onward i (s.workers i) (s.is_done i) (e ∷ events)
guarded-onward level i events e s l = elim (Bool-cases (ltb (worker_of e) level)) [
  | inl t ↦ rw t (step-onward i events e s)
  | inr f ↦
      let differ : eqb i (worker_of e) ≡ false = ground arith in
      rw f (onward-other i events e (s.workers i) (s.is_done i) differ)
]

drive-onward :
    (level i : ℕ) (events : List WorkerEvent) (s : LevelState)
    → i < level
    → outcome ((drive level events s).workers i) ≡ onward i (s.workers i) (s.is_done i) events
unfolding drive
drive-onward level i [] s l = onward-nil i (s.workers i) (s.is_done i)
drive-onward level i (e ∷ events) s l =
    drive-onward level i events (if ltb (worker_of e) level then step e s else s) l
    ∙ guarded-onward level i events e s l

tally-counted :
    (p : Worker → Bool) (q : Option Bool → Bool) (n : ℕ) (workers : ℕ → Worker)
    (events : List WorkerEvent)
    → ((w : Worker) → p w ≡ q (outcome w))
    → ((i : ℕ) → i < n → outcome (workers i) ≡ fate i false events)
    → tally p n workers ≡ counted q n events
tally-counted p q zero workers events same h = refl
tally-counted p q (suc n) workers events same h =
    rw
      (
        same (workers n),
        h n (omega arith),
        tally-counted p q n workers events same (λ i l. h i (omega arith)),
      )
      refl

-- The workers at the end of a level are counted as their events say.
pub drive-counted :
    (level : ℕ) (events : List WorkerEvent)
    → let workers = (drive level events new_level).workers in
      (tally has_finished level workers ≡ counted reports_done level events)
      × (tally has_expired level workers ≡ counted reports_expired level events)
      × (tally is_missing level workers ≡ counted reports_nothing level events)
unfolding new_level
drive-counted level events =
    let workers = (drive level events new_level).workers in
    let ends = λ (i : ℕ) (l : i < level). drive-onward level i events new_level l in
    (
      tally-counted has_finished reports_done level workers events done_as ends,
      tally-counted has_expired reports_expired level workers events expired_as ends,
      tally-counted is_missing reports_nothing level workers events missing_as ends,
    )
  where
    done_as : (w : Worker) → has_finished w ≡ reports_done (outcome w)
    done_as waiting = refl
    done_as (judged b) = refl
    done_as (reported true) = refl
    done_as (reported false) = refl

    expired_as : (w : Worker) → has_expired w ≡ reports_expired (outcome w)
    expired_as waiting = refl
    expired_as (judged b) = refl
    expired_as (reported true) = refl
    expired_as (reported false) = refl

    missing_as : (w : Worker) → is_missing w ≡ reports_nothing (outcome w)
    missing_as waiting = refl
    missing_as (judged b) = refl
    missing_as (reported b) = refl
