-- ===== src/RedisStore/Ranking.antt =====
-- The order in which the `trim` of the Redis store deletes keys does not depend on the order in which
-- the scan lists them, while no two keys have been idle for the same time.
use mathlib.Core.Logic.{∥∥₁_elim}
use mathlib.Core.List.Permᴰ
use native.Mathlib.Decide.{ℕ_discrete}
use mathlib.Core.List.{Permᴰ, Perm, List-discrete}
use mathlib.Core.HLevel.{hedberg, ×_discrete}
use mathlib.Core.Bool.{Bool-set, false≢true}
use as_platform.Base.{
  ℕ, ◌<◌, ◌≡◌, ◌≢◌, refl, sym, ◌∙◌, inl, inr, true, false, String, List, [], ◌∷◌, contains, arith,
  All, Bool-cases, str_dec,
}
use as_platform.Base.Dict.{Dict}
use as_platform.RedisStore.{place, sort_idle}

-- No key twice.
abbrev pub Once : List String → Type 0
Once [] = Unit
Once (k ∷ ks) = (contains ks k ≡ false) × Once ks

Dict-set : IsSet (Dict ℕ)
Dict-set = hedberg (List-discrete (×_discrete str_dec ℕ_discrete))

Once-prop : (ks : List String) → IsProp (Once ks)
Once-prop [] = hlevel
Once-prop (k ∷ ks) = hlevel (Bool-set, Once-prop ks)

contains-Permᴰ : {xs ys : List String} (a : String) → Permᴰ xs ys → contains xs a ≡ contains ys a
unfolding contains
contains-Permᴰ a Permᴰ.nil = refl
contains-Permᴰ a (Permᴰ.cons e p) = rw e (rw (contains-Permᴰ a p) refl)
contains-Permᴰ a (Permᴰ.swap e f) = ground arith
contains-Permᴰ a (Permᴰ.trans p q) = contains-Permᴰ a p ∙ contains-Permᴰ a q

Once-Permᴰ : {xs ys : List String} → Permᴰ xs ys → Once xs → Once ys
unfolding contains
Once-Permᴰ Permᴰ.nil h = tt
Once-Permᴰ (Permᴰ.cons {a} {b} e p) h =
    rw (sym e) (rw (sym (contains-Permᴰ a p)) h.0, Once-Permᴰ p h.1)
Once-Permᴰ (Permᴰ.swap e f) h = ground arith
Once-Permᴰ (Permᴰ.trans p q) h = Once-Permᴰ q (Once-Permᴰ p h)

module _ (idle : String → ℕ) where
  abbrev pub timed : List String → Dict ℕ
  timed [] = []
  timed (k ∷ ks) = (k, idle k) ∷ timed ks

  -- Each key has been idle for longer than those behind it.
  abbrev pub Falling : List String → Type 0
  Falling [] = Unit
  Falling (k ∷ ks) = All (λ j. idle j < idle k) ks × Falling ks

  -- No two of the keys have been idle for the same time.
  abbrev Apart : List String → Type 0
  Apart ks = (j k : String) → contains ks j ≡ true → contains ks k ≡ true → idle j ≡ idle k → j ≡ k

  place_comm :
      (x y : String × ℕ) (d : Dict ℕ) → x.1 ≢ y.1 → place x (place y d) ≡ place y (place x d)
  unfolding place
  place_comm x y [] h = ground arith
  place_comm x y (z ∷ d) h = ground (arith, place_comm x y d h)

  sort_idle-Permᴰ :
      {xs ys : List String}
      → Permᴰ xs ys
      → Once xs
      → Apart xs
      → sort_idle (timed xs) ≡ sort_idle (timed ys)
  unfolding sort_idle contains
  sort_idle-Permᴰ Permᴰ.nil o h = refl
  sort_idle-Permᴰ (Permᴰ.cons e p) o h =
      rw e (rw (sort_idle-Permᴰ p o.1 (λ j k cj ck. h j k (ground arith) (ground arith))) refl)
  sort_idle-Permᴰ (Permᴰ.swap {a} {b} {l} e f) o h =
      let differ : idle a ≢ idle b = λ q. ground (arith, h a b (ground arith) (ground arith) q) in
      rw (sym e) (rw (sym f) (place_comm (a, idle a) (b, idle b) (sort_idle (timed l)) differ))
  sort_idle-Permᴰ (Permᴰ.trans p q) o h =
      sort_idle-Permᴰ p o h
      ∙ sort_idle-Permᴰ q (Once-Permᴰ p o)
          (λ j k cj ck. h j k (contains-Permᴰ j p ∙ cj) (contains-Permᴰ k p ∙ ck))

  sort_idle-Falling : (ks : List String) → Falling ks → sort_idle (timed ks) ≡ timed ks
  unfolding sort_idle place
  sort_idle-Falling [] f = refl
  sort_idle-Falling (k ∷ []) f = refl
  sort_idle-Falling (k ∷ j ∷ ks) f = rw (sort_idle-Falling (j ∷ ks) f.1) (ground arith)

  Falling-below :
      (j k : String) (ks : List String)
      → All (λ i. idle i < idle k) ks
      → contains ks j ≡ true
      → idle j < idle k
  unfolding contains
  Falling-below j k [] f c = absurd (false≢true c)
  Falling-below j k (i ∷ ks) f c = ground (arith, Falling-below j k ks f.1)

  pub Falling-Once : (ks : List String) → Falling ks → Once ks
  Falling-Once [] f = tt
  Falling-Once (k ∷ ks) f = elim (Bool-cases (contains ks k)) [
    | inl e ↦ let loop : idle k < idle k = Falling-below k k ks f.0 e in absurd (omega arith)
    | inr e ↦ (e, Falling-Once ks f.1)
  ]

  Falling-Apart : (ks : List String) → Falling ks → Apart ks
  unfolding contains
  Falling-Apart [] f j k cj ck e = absurd (false≢true cj)
  Falling-Apart (i ∷ ks) f j k cj ck e =
      ground (arith, Falling-Apart ks f.1 j k, Falling-below j i ks f.0, Falling-below k i ks f.0)

  -- Whatever the order of the scan, the keys are sorted as the family lies, longest idle first.
  pub sort_idle-Perm :
      {found ks : List String}
      → Perm found ks
      → Falling ks
      → Once found × (sort_idle (timed found) ≡ timed ks)
  sort_idle-Perm {found} {ks} p f = (
    ∥∥₁_elim p (Once-prop found) (λ q. Once-Permᴰ (Permᴰ.symm q) (Falling-Once ks f)),
    ∥∥₁_elim p (Dict-set _ _) (λ q.
        sym (sort_idle-Permᴰ (Permᴰ.symm q) (Falling-Once ks f) (Falling-Apart ks f))
        ∙ sort_idle-Falling ks f),
  )
