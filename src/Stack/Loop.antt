-- ===== src/Stack/Loop.antt =====
-- bootstrap.py, `ShutdownController` and the signal handlers, and main.py, the shutdown poll of
-- `BaseAsStack.run`. The names of the signals are a parameter. Signals arrive at any time between the
-- callbacks of the event loop, which runs its timers one after the other until it is broken.
use as_platform.Base.{
  ℕ, ◌<>◌, ◌≡◌, refl, ◌∙◌, Bool, true, false, String, List, [], ◌∷◌, ◌++◌, Option, none, some,
  if◌then◌else◌,
}

pub record ShutdownController : Type 0 where
  pub requested : Bool
  pub reason : Option String

unfoldable pub new_shutdown : ShutdownController
new_shutdown = record { requested = false; reason = none }

unfoldable pub request : String → ShutdownController → ShutdownController
request reason c = record { requested = true; reason = some reason }

-- What happens in the process: a signal, the shutdown poll, and any other callback.
pub data LoopEvent : Type 0 where
  signal : ℕ → LoopEvent
  poll other : LoopEvent

module _ (signal_name : ℕ → String) where
  -- `_handler`
  unfoldable handle_signal : ℕ → ShutdownController → ShutdownController
  unfolding request
  handle_signal signum c = request ("signal " <> signal_name signum) c

  -- `_poll_shutdown`: whether the poll breaks the loop
  unfoldable poll_shutdown : ShutdownController → Bool
  poll_shutdown c = c.requested

  -- The events that the loop does not get to, if it is broken.
  unfoldable pub loop :
      List LoopEvent → ShutdownController → Option (List LoopEvent) × ShutdownController
  unfolding handle_signal poll_shutdown
  loop [] c = (none, c)
  loop (signal n ∷ events) c = loop events (handle_signal n c)
  loop (other ∷ events) c = loop events c
  loop (poll ∷ events) c =
      let rest = loop events c in if poll_shutdown c then (some events, c) else rest

-- No signal arrives, and no poll is run.
abbrev NoSignal : List LoopEvent → Type 0
NoSignal [] = Unit {0}
NoSignal (signal n ∷ events) = Path Bool true false
NoSignal (e ∷ events) = NoSignal events

abbrev NoPoll : List LoopEvent → Type 0
NoPoll [] = Unit {0}
NoPoll (poll ∷ events) = Path Bool true false
NoPoll (e ∷ events) = NoPoll events

-- The last signal, after one.
abbrev pub last_signal : ℕ → List LoopEvent → ℕ
last_signal n [] = n
last_signal n (signal m ∷ events) = last_signal m events
last_signal n (e ∷ events) = last_signal n events

module _ (signal_name : ℕ → String) where
  -- A controller that has been asked by a signal.
  abbrev pub asked_by : ℕ → ShutdownController
  asked_by n = record { requested = true; reason = some ("signal " <> signal_name n) }

  loop-asked :
      (n : ℕ) (between rest : List LoopEvent)
      → NoPoll between
      → loop signal_name (between ++ poll ∷ rest) (asked_by n)
        ≡ (some rest, asked_by (last_signal n between))
  unfolding loop handle_signal request poll_shutdown
  loop-asked n [] rest h = refl
  loop-asked n (signal m ∷ between) rest h = loop-asked m between rest h
  loop-asked n (poll ∷ between) rest h = cc
  loop-asked n (other ∷ between) rest h = loop-asked n between rest h

  loop-quiet :
      (before events : List LoopEvent)
      → NoSignal before
      → loop signal_name (before ++ events) new_shutdown ≡ loop signal_name events new_shutdown
  unfolding loop new_shutdown poll_shutdown
  loop-quiet [] events h = refl
  loop-quiet (signal m ∷ before) events h = cc
  loop-quiet (poll ∷ before) events h = loop-quiet before events h
  loop-quiet (other ∷ before) events h = loop-quiet before events h

  loop-idle :
      (before : List LoopEvent)
      → NoSignal before
      → loop signal_name before new_shutdown ≡ (none, new_shutdown)
  unfolding loop new_shutdown poll_shutdown
  loop-idle [] h = refl
  loop-idle (signal m ∷ before) h = cc
  loop-idle (poll ∷ before) h = loop-idle before h
  loop-idle (other ∷ before) h = loop-idle before h

  -- While no signal arrives, no poll breaks the loop and nothing is requested. After the first
  -- signal, the next poll breaks it, whatever happens in between, and no event behind that poll is
  -- handled; the reason is that of the last signal before it.
  pub loop-Asked :
      (before between rest : List LoopEvent) (n : ℕ)
      → NoSignal before
      → NoPoll between
      → (loop signal_name before new_shutdown ≡ (none, new_shutdown))
        × (loop signal_name (before ++ signal n ∷ (between ++ poll ∷ rest)) new_shutdown
            ≡ (some rest, asked_by (last_signal n between)))
  unfolding loop handle_signal request
  loop-Asked before between rest n q u = (
    loop-idle before q,
    loop-quiet before (signal n ∷ (between ++ poll ∷ rest)) q ∙ loop-asked n between rest u,
  )
