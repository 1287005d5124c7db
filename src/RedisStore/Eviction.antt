-- ===== src/RedisStore/Eviction.antt =====
-- Which keys the `trim` of the Redis store deletes, by the idle times that the worker read.
use mathlib.Core.List.Perm
use mathlib.Core.List.{Perm}
use as_platform.Base.{
  ℕ, zero, suc, ◌≤◌, ◌-◌, ◌≡◌, refl, sym, ap, subst, ◌∙◌, inl, inr, String, List, [], ◌∷◌, ◌++◌,
  arith, length, length-drop, take, drop, ltb, All, Bool-cases,
}
use as_platform.Base.Dict.{Dict, keys}
use as_platform.RedisStore.{place, sort_idle, victims}

-- Every entry is at most as long idle as the one given.
abbrev Below : ℕ → Dict ℕ → Type 0
Below t d = All (λ e. e.1 ≤ t) d

abbrev Sorted : Dict ℕ → Type 0
Sorted [] = Unit
Sorted (x ∷ d) = Below x.1 d × Sorted d

Below-trans : (t u : ℕ) (d : Dict ℕ) → t ≤ u → Below t d → Below u d
Below-trans t u [] h b = tt
Below-trans t u (x ∷ d) h b = (omega arith, Below-trans t u d h b.1)

place-Below : (t : ℕ) (x : String × ℕ) (d : Dict ℕ) → x.1 ≤ t → Below t d → Below t (place x d)
unfolding place
place-Below t x [] h b = (h, tt)
place-Below t x (y ∷ d) h b = elim (Bool-cases (ltb x.1 y.1)) [
  | inl e ↦ rw e (b.0, place-Below t x d h b.1)
  | inr e ↦ rw e (h, b)
]

place-Sorted : (x : String × ℕ) (d : Dict ℕ) → Sorted d → Sorted (place x d)
unfolding place
place-Sorted x [] s = (tt, tt)
place-Sorted x (y ∷ d) s = elim (Bool-cases (ltb x.1 y.1)) [
  | inl e ↦
      let le : x.1 ≤ y.1 = ground arith in rw e (place-Below y.1 x d le s.0, place-Sorted x d s.1)
  | inr e ↦ let le : y.1 ≤ x.1 = ground arith in rw e ((le, Below-trans y.1 x.1 d le s.0), s)
]

sort_idle-Sorted : (d : Dict ℕ) → Sorted (sort_idle d)
unfolding sort_idle
sort_idle-Sorted [] = tt
sort_idle-Sorted (x ∷ d) = place-Sorted x (sort_idle d) (sort_idle-Sorted d)

-- The two parts of a sorted list, cut at any place.
Across : ℕ → Dict ℕ → Type 0
Across n d = All (λ e. Below e.1 (drop n d)) (take n d)

drop-Below : (n t : ℕ) (d : Dict ℕ) → Below t d → Below t (drop n d)
drop-Below zero t d b = b
drop-Below (suc n) t [] b = tt
drop-Below (suc n) t (x ∷ d) b = drop-Below n t d b.1

Sorted-Across : (n : ℕ) (d : Dict ℕ) → Sorted d → Across n d
unfolding Across
Sorted-Across zero d s = tt
Sorted-Across (suc n) [] s = tt
Sorted-Across (suc n) (x ∷ d) s = (drop-Below n x.1 d s.0, Sorted-Across n d s.1)

take-drop : (n : ℕ) (d : Dict ℕ) → take n d ++ drop n d ≡ d
take-drop zero d = refl
take-drop (suc n) [] = refl
take-drop (suc n) (x ∷ d) = ap (λ r. x ∷ r) (take-drop n d)

place-Perm : (x : String × ℕ) (d : Dict ℕ) → Perm (place x d) (x ∷ d)
unfolding place
place-Perm x [] = Perm.rfl
place-Perm x (y ∷ d) = elim (Bool-cases (ltb x.1 y.1)) [
  | inl e ↦ rw e (Perm.trans (Perm.cons y (place-Perm x d)) (Perm.swap x y d))
  | inr e ↦ rw e Perm.rfl
]

sort_idle-Perm : (d : Dict ℕ) → Perm (sort_idle d) d
unfolding sort_idle
sort_idle-Perm [] = Perm.rfl
sort_idle-Perm (x ∷ d) = Perm.trans (place-Perm x (sort_idle d)) (Perm.cons x (sort_idle-Perm d))

length-place : (x : String × ℕ) (d : Dict ℕ) → length (place x d) ≡ suc (length d)
unfolding place
length-place x [] = refl
length-place x (y ∷ d) = elim (Bool-cases (ltb x.1 y.1)) [
  | inl e ↦ rw e (ap suc (length-place x d))
  | inr e ↦ rw e refl
]

length-sort_idle : (d : Dict ℕ) → length (sort_idle d) ≡ length d
unfolding sort_idle
length-sort_idle [] = refl
length-sort_idle (x ∷ d) = length-place x (sort_idle d) ∙ ap suc (length-sort_idle d)

-- The keys that a trim deletes are those of a part of the idle times that it read: that part and
-- the part it keeps make up all of them, each deleted key has been idle at least as long as each
-- kept one, and as many are kept as were read, less the excess of the scan over the limit.
pub victims-longest_idle :
    (found : List String) (limit : ℕ) (times : Dict ℕ)
    → (gone : Dict ℕ) × (kept : Dict ℕ) × (victims found limit times ≡ keys gone)
      × Perm (gone ++ kept) times
      × All (λ e. All (λ f. f.1 ≤ e.1) kept) gone
      × (length kept ≡ length times - (length found - limit))
unfolding victims Across
victims-longest_idle found limit times =
    let n = length found - limit in
    let d = sort_idle times in
    (
      take n d,
      drop n d,
      refl,
      subst (λ l. Perm l times) (sym (take-drop n d)) (sort_idle-Perm times),
      Sorted-Across n d (sort_idle-Sorted times),
      length-drop n d ∙ ap (λ m. m - n) (length-sort_idle times),
    )
