-- ===== src/CallController/Spares.antt =====
-- The timers of other calls across what one call does.
use as_platform.Base.{
  ℕ, ◌<◌, ◌≡◌, ◌≢◌, ap, Bool, true, false, not, ◌||◌, List, [], ◌∷◌, ◌++◌, Option, none, some,
  arith, eqb, keep,
}
use as_platform.CallController.Ending.{still_armed}

abbrev pub is_armed : ℕ → List ℕ → Bool
is_armed t [] = false
is_armed t (x ∷ l) = eqb x t || is_armed t l

-- A timer that is already handed out and that the call does not hold: the call does not hold it
-- afterwards either, and it is still armed if it was and is not the one that fires.
abbrev pub Spares : ℕ → Option ℕ → List ℕ → Option ℕ → Option ℕ → List ℕ → Type 0
Spares next held armed fired held' armed' =
    (x : ℕ)
    → x < next
    → held ≢ some x
    → (held' ≢ some x) × (fired ≢ some x → is_armed x armed ≡ true → is_armed x armed' ≡ true)

is_armed-keep :
    (x n : ℕ) (l : List ℕ)
    → n ≢ x
    → is_armed x l ≡ true
    → is_armed x (keep (λ y. not (eqb y n)) l) ≡ true
is_armed-keep x n [] other h = h
is_armed-keep x n (y ∷ l) other h = ground (arith, is_armed-keep x n l other)

is_armed-append : (x : ℕ) (l m : List ℕ) → is_armed x l ≡ true → is_armed x (l ++ m) ≡ true
is_armed-append x [] m h = absurd (cc)
is_armed-append x (y ∷ l) m h = ground (arith, is_armed-append x l m)

pub Spares-same :
    (n : ℕ) (held : Option ℕ) (l : List ℕ) (fired : Option ℕ) → Spares n held l fired held l
Spares-same n held l fired x lt other = (other, λ kept h. h)

pub Spares-still_armed :
    (n : ℕ) (held : Option ℕ) (l : List ℕ) (fired : Option ℕ)
    → Spares n held l fired none (still_armed held l)
Spares-still_armed n none l fired x lt other = (λ e. cc, λ kept h. h)
Spares-still_armed n (some t) l fired x lt other =
    (λ e. cc, λ kept. is_armed-keep x t l (λ e. other (ap some e)))

pub Spares-attempted :
    (n : ℕ) (held : Option ℕ) (l : List ℕ) (fired : Option ℕ)
    → Spares n held l fired (some n) (l ++ n ∷ [])
Spares-attempted n held l fired x lt other =
    (λ e. ground arith, λ kept. is_armed-append x l (n ∷ []))

pub Spares-failed_over :
    (n : ℕ) (held : Option ℕ) (l : List ℕ) (fired : Option ℕ)
    → Spares n held l fired none (keep (λ y. not (eqb y n)) (l ++ n ∷ []))
Spares-failed_over n held l fired x lt other =
    (λ e. cc, λ kept h. is_armed-keep x n _ (λ e. ground arith) (is_armed-append x l (n ∷ []) h))

pub Spares-fired :
    (n : ℕ) (held : Option ℕ) (l : List ℕ) (y : ℕ)
    → Spares n held l (some y) held (keep (λ z. not (eqb z y)) l)
Spares-fired n held l y x lt other = (other, λ kept. is_armed-keep x y l (λ e. kept (ap some e)))

-- What follows a cancellation.
pub Spares-cancelled :
    (n : ℕ) (held : Option ℕ) (l : List ℕ) (fired held' : Option ℕ) (l' : List ℕ)
    → Spares n none (still_armed held l) fired held' l'
    → Spares n held l fired held' l'
Spares-cancelled n held l fired held' l' h x lt other =
    let (gone, stays) = h x lt (λ e. cc) in
    (gone, λ kept a. stays kept ((Spares-still_armed n held l fired x lt other).1 kept a))
