-- ===== src/StateStore/Trim.antt =====
-- `trim` drops the oldest keys of one family, and nothing else.
use as_platform.Base.{
  ℕ, zero, suc, ◌-◌, ◌≤◌, ◌≡◌, refl, true, false, not, String, List, [], ◌∷◌, arith, Bool-cases,
  inl, inr, length-drop, ltb, length, keep, drop, startswith,
}
use native.Mathlib.Nat.{zero-sub}
use as_platform.Base.Dict.{Dict, erase, keys}
use as_platform.StateStore.{family, evict, trim}

module _ {V : Type 0} (prefix : String) where
  -- The reference: one pass that leaves out the first `n` entries of the family.
  unfoldable pub drop_oldest : ℕ → Dict V → Dict V
  drop_oldest zero d = d
  drop_oldest (suc n) [] = []
  drop_oldest (suc n) (e ∷ d) = elim (startswith e.0 prefix) [
    | true ↦ drop_oldest n d
    | false ↦ e ∷ drop_oldest (suc n) d
  ]

  -- The entries outside the family, in order.
  unfoldable pub others : Dict V → Dict V
  others d = keep (λ e. not (startswith e.0 prefix)) d

  family_head :
      (k : String) (f : List String) (d : Dict V)
      → family prefix d ≡ k ∷ f
      → startswith k prefix ≡ true
  unfolding family keys
  family_head k f [] h = cc
  family_head k f (e ∷ d) h = ground (arith, family_head k f d)

  erase_first :
      (k : String) (f : List String) (d : Dict V)
      → family prefix d ≡ k ∷ f
      → (erase k d ≡ drop_oldest 1 d) × (family prefix (erase k d) ≡ f)
  unfolding family keys erase drop_oldest
  erase_first k f [] h = cc
  erase_first k f (e ∷ d) h = ground (arith, erase_first k f d, family_head k f (e ∷ d) h)

  drop_oldest-suc : (n : ℕ) (d : Dict V) → drop_oldest n (drop_oldest 1 d) ≡ drop_oldest (suc n) d
  unfolding drop_oldest
  drop_oldest-suc zero d = refl
  drop_oldest-suc (suc n) [] = refl
  drop_oldest-suc (suc n) (e ∷ d) = ground (arith, drop_oldest-suc (suc n) d)

  drop_oldest_zero : {d : Dict V} → d ≡ drop_oldest 0 d
  unfolding drop_oldest
  drop_oldest_zero = refl

  evict-drop_oldest :
      (f : List String) (limit : ℕ) (d : Dict V)
      → family prefix d ≡ f
      → evict f limit d ≡ drop_oldest (length f - limit) d
  unfolding evict
  evict-drop_oldest [] limit d h = rw zero-sub drop_oldest_zero
  evict-drop_oldest (k ∷ f) limit d h = elim (Bool-cases (ltb limit (length (k ∷ f)))) [
    | inl more ↦
        let first = erase_first k f d h in
        let count : length (k ∷ f) - limit ≡ suc (length f - limit) = ground arith in
        rw (more, count, evict-drop_oldest f limit (erase k d) first.1, first.0)
          (drop_oldest-suc (length f - limit) d)
    | inr fits ↦
        let count : length (k ∷ f) - limit ≡ 0 = ground arith in rw (fits, count) drop_oldest_zero
  ]

  -- `trim` is the one-pass reference: the oldest entries above the limit are left out.
  pub trim-drop_oldest :
      (limit : ℕ) (d : Dict V)
      → trim prefix limit d ≡ drop_oldest (length (family prefix d) - limit) d
  unfolding trim
  trim-drop_oldest limit d = evict-drop_oldest (family prefix d) limit d refl

  family-drop_oldest :
      (n : ℕ) (d : Dict V) → family prefix (drop_oldest n d) ≡ drop n (family prefix d)
  unfolding family keys drop_oldest
  family-drop_oldest zero d = refl
  family-drop_oldest (suc n) [] = refl
  family-drop_oldest (suc n) (e ∷ d) =
      ground (arith, family-drop_oldest n d, family-drop_oldest (suc n) d)

  others-drop_oldest : (n : ℕ) (d : Dict V) → others (drop_oldest n d) ≡ others d
  unfolding others drop_oldest
  others-drop_oldest zero d = refl
  others-drop_oldest (suc n) [] = refl
  others-drop_oldest (suc n) (e ∷ d) =
      ground (arith, others-drop_oldest n d, others-drop_oldest (suc n) d)

  -- `trim` keeps the most recently used keys of the family, as many as the limit allows, in their
  -- order, and it keeps every entry outside the family, in its order.
  pub trim-keeps_newest :
      (limit : ℕ) (d : Dict V)
      → (family prefix (trim prefix limit d)
          ≡ drop (length (family prefix d) - limit) (family prefix d))
        × (length (family prefix (trim prefix limit d)) ≤ limit)
        × (others (trim prefix limit d) ≡ others d)
  trim-keeps_newest limit d =
      let n = length (family prefix d) - limit in
      let kept = family-drop_oldest n d in
      rw trim-drop_oldest
        (kept, rw kept (omega (arith, length-drop {0} n (family prefix d))), others-drop_oldest n d)
