-- ===== src/Base/Lists.antt =====
-- Lists measured and cut by native numbers, under the library's names.
use Prim.Native.Nat.{ℕ, zero, suc, ◌+◌, ◌-◌, ◌≤◌}
use Prim.Native.String.{String}
use mathlib.Core.Path.{◌≡◌, refl, ap}
use mathlib.Core.List.{List, [], ◌∷◌, ◌++◌}
use mathlib.Core.Bool.{Bool, false, ◌||◌}
use native.Mathlib.Omega.{arith}
use mathlib.Core.Logic.{inl, inr}
use as_platform.Base.Tests.{◌==◌, if◌then◌else◌, ltb, Bool-cases}

module _ {ℓ} {A : Type ℓ} where
  abbrev pub length : List A → ℕ
  length [] = 0
  length (x ∷ xs) = suc (length xs)

  abbrev pub take : ℕ → List A → List A
  take zero xs = []
  take (suc n) [] = []
  take (suc n) (x ∷ xs) = x ∷ take n xs

  abbrev pub drop : ℕ → List A → List A
  drop zero xs = xs
  drop (suc n) [] = []
  drop (suc n) (x ∷ xs) = drop n xs

  pub length-append : (xs ys : List A) → length (xs ++ ys) ≡ length xs + length ys
  length-append [] ys = omega arith
  length-append (x ∷ xs) ys = omega (arith, length-append xs ys)

  pub length-drop : (n : ℕ) (xs : List A) → length (drop n xs) ≡ length xs - n
  length-drop zero xs = omega arith
  length-drop (suc n) [] = omega arith
  length-drop (suc n) (x ∷ xs) = omega (arith, length-drop n xs)

  pub take-fits : (n : ℕ) (xs : List A) → length xs ≤ n → take n xs ≡ xs
  take-fits zero [] h = refl
  take-fits zero (x ∷ xs) h = absurd (omega arith)
  take-fits (suc n) [] h = refl
  take-fits (suc n) (x ∷ xs) h = ap (λ l. x ∷ l) (take-fits n xs (omega arith))

  pub length-take-le : (n : ℕ) (xs : List A) → length (take n xs) ≤ n
  length-take-le zero xs = omega arith
  length-take-le (suc n) [] = omega arith
  length-take-le (suc n) (x ∷ xs) = omega (arith, length-take-le n xs)

  -- A comprehension `[x for x in xs if test(x)]`.
  abbrev pub keep : (A → Bool) → List A → List A
  keep test [] = []
  keep test (x ∷ xs) = let rest = keep test xs in if test x then x ∷ rest else rest

  -- Every entry has the property. Tactics read it as a tuple.
  abbrev pub All {κ} : (A → Type κ) → List A → Type κ
  All P [] = Unit
  All P (x ∷ xs) = P x × All P xs

-- Python's `in` on a list of texts.
unfoldable pub contains : List String → String → Bool
contains [] a = false
contains (x ∷ xs) a = a == x || contains xs a

module _ {ℓ} {A : Type ℓ} where
  -- `while len(xs) > limit: xs.pop(0)`
  unfoldable pub pop_front : ℕ → List A → List A
  pop_front limit [] = []
  pop_front limit (x ∷ xs) = if ltb limit (length (x ∷ xs)) then pop_front limit xs else x ∷ xs

  -- The loop leaves the last entries, as many as the limit allows.
  pub pop_front_lem : (limit : ℕ) (xs : List A) → pop_front limit xs ≡ drop (length xs - limit) xs
  unfolding pop_front
  pop_front_lem limit [] = ground arith
  pop_front_lem limit (x ∷ xs) = elim (Bool-cases (ltb limit (length (x ∷ xs)))) [
    | inl more ↦
        let count : length (x ∷ xs) - limit ≡ suc (length xs - limit) = ground arith in
        rw (more, count) (pop_front_lem limit xs)
    | inr fits ↦ let count : length (x ∷ xs) - limit ≡ 0 = ground arith in rw (fits, count)
  ]

  pub length-pop_front-le : (limit : ℕ) (xs : List A) → length (pop_front limit xs) ≤ limit
  length-pop_front-le limit xs =
      rw (pop_front_lem limit xs) (omega (arith, length-drop {ℓ} (length xs - limit) xs))

  pub pop_front-fits : (limit : ℕ) (xs : List A) → length xs ≤ limit → pop_front limit xs ≡ xs
  unfolding pop_front
  pop_front-fits limit [] h = refl
  pop_front-fits limit (x ∷ xs) h = ground arith

  -- The loop run once at the end leaves what it leaves when it runs after every addition.
  pub pop_front-append :
      (limit : ℕ) (xs ys : List A)
      → pop_front limit (pop_front limit xs ++ ys) ≡ pop_front limit (xs ++ ys)
  unfolding pop_front
  pop_front-append limit [] ys = refl
  pop_front-append limit (x ∷ xs) ys =
      ground (arith, pop_front-append limit xs ys, length-append {ℓ} xs ys)
