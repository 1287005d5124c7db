-- ===== src/RedisStore/Scan.antt =====
-- A scan that may list a key more than once: the keys that it finds, each once, and in what they are
-- those of the family.
use mathlib.Core.List.Permᴰ
use mathlib.Core.List.{Permᴰ}
use mathlib.Core.Bool.{false≢true}
use as_platform.Base.{
  suc, ◌+◌, ◌≤◌, ◌≡◌, refl, ap, ◌∙◌, inl, inr, true, false, not, ◌&&◌, ◌||◌, ◌==◌, if◌then◌else◌,
  String, List, [], ◌∷◌, ◌++◌, contains, length, arith, Bool-cases,
}
use as_platform.RedisStore.Ranking.{Once}

-- What was found before, and behind it what a list adds to it, each key once.
abbrev pub union : List String → List String → List String
union [] js = js
union (k ∷ ks) js = union ks (if contains js k then js else js ++ k ∷ [])

contains-snoc :
    (js : List String) (k a : String) → contains (js ++ k ∷ []) a ≡ (contains js a || a == k)
unfolding contains
contains-snoc [] k a = ground arith
contains-snoc (j ∷ js) k a = ground (arith, contains-snoc js k a)

Once-snoc : (js : List String) (k : String) → Once js → contains js k ≡ false → Once (js ++ k ∷ [])
unfolding contains
Once-snoc [] k o h = (refl, tt)
Once-snoc (j ∷ js) k o h = (ground (arith, contains-snoc js k j), Once-snoc js k o.1 (ground arith))

Once-added :
    (js : List String) (k : String) → Once js → Once (if contains js k then js else js ++ k ∷ [])
Once-added js k o = elim (Bool-cases (contains js k)) [
  | inl t ↦ rw t o
  | inr f ↦ rw f (Once-snoc js k o f)
]

pub Once-union : (ks js : List String) → Once js → Once (union ks js)
Once-union [] js o = o
Once-union (k ∷ ks) js o = Once-union ks _ (Once-added js k o)

contains-added :
    (js : List String) (k a : String)
    → contains (if contains js k then js else js ++ k ∷ []) a ≡ (contains js a || a == k)
contains-added js k a = elim (Bool-cases (contains js k)) [
  | inl t ↦ rw t (ground arith)
  | inr f ↦ rw f (contains-snoc js k a)
]

pub contains-union :
    (ks js : List String) (a : String) → contains (union ks js) a ≡ (contains js a || contains ks a)
unfolding contains
contains-union [] js a = ground arith
contains-union (k ∷ ks) js a = contains-union ks _ a ∙ ground (arith, contains-added js k a)

length-snoc : (js : List String) (k : String) → length (js ++ k ∷ []) ≡ suc (length js)
length-snoc [] k = refl
length-snoc (j ∷ js) k = ap suc (length-snoc js k)

length-added :
    (js : List String) (k : String)
    → length (if contains js k then js else js ++ k ∷ []) ≤ suc (length js)
length-added js k = elim (Bool-cases (contains js k)) [
  | inl t ↦ rw t (omega arith)
  | inr f ↦ rw (f, length-snoc js k) (omega arith)
]

pub length-union : (ks js : List String) → length (union ks js) ≤ length ks + length js
length-union [] js = omega arith
length-union (k ∷ ks) js =
    let js' = if contains js k then js else js ++ k ∷ [] in
    omega (arith, length-union ks js', length-added js k)

-- A list without a key.
abbrev without : String → List String → List String
without x [] = []
without x (y ∷ ys) = if y == x then without x ys else y ∷ without x ys

contains-without :
    (x : String) (ys : List String) (a : String)
    → contains (without x ys) a ≡ (contains ys a && not (a == x))
unfolding contains
contains-without x [] a = refl
contains-without x (y ∷ ys) a = ground (arith, contains-without x ys a)

Once-without : (x : String) (ys : List String) → Once ys → Once (without x ys)
Once-without x [] o = tt
Once-without x (y ∷ ys) o = ground (arith, contains-without x ys y, Once-without x ys o.1)

without_absent : (x : String) (ys : List String) → contains ys x ≡ false → without x ys ≡ ys
unfolding contains
without_absent x [] h = refl
without_absent x (y ∷ ys) h = ground (arith, without_absent x ys)

Permᴰ-without :
    (x : String) (ys : List String) → Once ys → contains ys x ≡ true → Permᴰ (x ∷ without x ys) ys
unfolding contains
Permᴰ-without x [] o h = absurd (false≢true h)
Permᴰ-without x (y ∷ ys) o h = elim (Bool-cases (y == x)) [
  | inl t ↦
      let same : x ≡ y = ground arith in
      let gone : contains ys x ≡ false = ground arith in
      rw (t, without_absent x ys gone) (Permᴰ.cons same (Permᴰ.refl ys))
  | inr f ↦
      let there : contains ys x ≡ true = ground arith in
      rw f (Permᴰ.trans (Permᴰ.swap refl refl) (Permᴰ.cons refl (Permᴰ-without x ys o.1 there)))
]

-- Two lists without a repeated key that have the same keys are permutations of each other.
pub same_keys-Permᴰ :
    (xs ys : List String)
    → Once xs
    → Once ys
    → ((a : String) → contains xs a ≡ contains ys a)
    → Permᴰ xs ys
unfolding contains
same_keys-Permᴰ [] [] o p h = Permᴰ.nil
same_keys-Permᴰ [] (y ∷ ys) o p h = absurd (ground (arith, h y))
same_keys-Permᴰ (x ∷ xs) ys o p h =
    let there : contains ys x ≡ true = ground (arith, h x) in
    Permᴰ.trans
      (Permᴰ.cons refl (
        same_keys-Permᴰ xs (without x ys) o.1 (Once-without x ys p)
          (λ a. ground (arith, h a, contains-without x ys a))))
      (Permᴰ-without x ys p there)
