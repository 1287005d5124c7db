-- ===== src/Base/Dict/Laws.antt =====
-- What can be read of a dict after each of its operations, and the uniqueness of its keys.
use Prim.Native.Nat.{◌+◌}
use Prim.Native.String.{String}
use mathlib.Core.Path.{◌≡◌, refl}
use mathlib.Core.Logic.{inl, inr}
use mathlib.Core.Bool.{true, false}
use mathlib.Core.List.{[], ◌∷◌, ◌++◌}
use mathlib.Core.Option.{none, some}
use native.Mathlib.Omega.{arith}
use as_platform.Base.Lists.{length, length-append}
use as_platform.Base.Tests.{◌==◌, if◌then◌else◌, Option-cases}
use as_platform.Base.Dict.{Dict, lookup, has, insert, erase, move_to_end, update, NodupKeys}

module _ {ℓ} {V : Type ℓ} where
  pub lookup-insert :
      (j k : String) (v : V) (d : Dict V)
      → lookup j (insert k v d) ≡ (if j == k then some v else lookup j d)
  unfolding lookup insert
  lookup-insert j k v [] = refl
  lookup-insert j k v (e ∷ d) = ground (arith, lookup-insert j k v d)

  lookup-erase :
      (j k : String) (d : Dict V)
      → NodupKeys d
      → lookup j (erase k d) ≡ (if j == k then none else lookup j d)
  unfolding lookup erase
  lookup-erase j k [] h = ground arith
  lookup-erase j k (e ∷ d) h = ground (arith, lookup-erase j k d h.1)

  pub lookup-append :
      (j : String) (d e : Dict V)
      → lookup j (d ++ e) ≡ (elim (lookup j d) [ none ↦ lookup j e | some v ↦ some v ])
  unfolding lookup
  lookup-append j [] e = refl
  lookup-append j (x ∷ d) e = ground (arith, lookup-append j d e)

  pub lookup-last :
      (j k : String) (v : V) → lookup j ((k, v) ∷ []) ≡ (if j == k then some v else none)
  unfolding lookup
  lookup-last j k v = refl

  -- `in` agrees with the lookup.
  pub has-lookup :
      (k : String) (d : Dict V) → has k d ≡ (elim (lookup k d) [ none ↦ false | some v ↦ true ])
  unfolding has lookup
  has-lookup k [] = refl
  has-lookup k (e ∷ d) = ground (arith, has-lookup k d)

  pub insert-NodupKeys : (k : String) (v : V) (d : Dict V) → NodupKeys d → NodupKeys (insert k v d)
  unfolding insert lookup
  insert-NodupKeys k v [] h = (refl, tt)
  insert-NodupKeys k v (e ∷ d) h =
      ground (arith, insert-NodupKeys k v d h.1, lookup-insert e.0 k v d)

  pub erase-NodupKeys : (k : String) (d : Dict V) → NodupKeys d → NodupKeys (erase k d)
  unfolding erase
  erase-NodupKeys k [] h = tt
  erase-NodupKeys k (e ∷ d) h = ground (arith, erase-NodupKeys k d h.1, lookup-erase e.0 k d h.1)

  append_one-NodupKeys :
      (k : String) (v : V) (d : Dict V)
      → lookup k d ≡ none
      → NodupKeys d
      → NodupKeys (d ++ (k, v) ∷ [])
  unfolding lookup
  append_one-NodupKeys k v [] a h = (refl, tt)
  append_one-NodupKeys k v (e ∷ d) a h =
      ground (arith, append_one-NodupKeys k v d, h.1, lookup-append e.0 d ((k, v) ∷ []))

  length-erase :
      (k : String) (v : V) (d : Dict V) → lookup k d ≡ some v → length (erase k d) + 1 ≡ length d
  unfolding lookup erase
  length-erase k v [] h = cc
  length-erase k v (e ∷ d) h = ground (arith, length-erase k v d)

  pub insert-absent :
      (k : String) (v : V) (d : Dict V) → lookup k d ≡ none → insert k v d ≡ d ++ (k, v) ∷ []
  unfolding lookup insert
  insert-absent k v [] h = refl
  insert-absent k v (e ∷ d) h = ground (arith, insert-absent k v d)

  pub length-insert-present :
      (k : String) (v w : V) (d : Dict V) → lookup k d ≡ some w → length (insert k v d) ≡ length d
  unfolding lookup insert
  length-insert-present k v w [] h = cc
  length-insert-present k v w (e ∷ d) h = ground (arith, length-insert-present k v w d)

  pub erase-insert :
      (k : String) (v : V) (d : Dict V) → NodupKeys d → erase k (insert k v d) ≡ erase k d
  unfolding erase insert
  erase-insert k v [] h = ground arith
  erase-insert k v (e ∷ d) h = ground (arith, erase-insert k v d h.1)

  -- Moving a key to the end changes no lookup.
  pub lookup-move_to_end :
      (j k : String) (d : Dict V) → NodupKeys d → lookup j (move_to_end k d) ≡ lookup j d
  unfolding move_to_end
  lookup-move_to_end j k d h = elim (Option-cases (lookup k d)) [
    | inl e ↦ rw (e, move_to_end)
    | inr (v, e) ↦
        rw (e, move_to_end)
          (ground (
            arith,
            lookup-append j (erase k d) ((k, v) ∷ []),
            lookup-erase j k d h,
            lookup-last j k v,
          ))
  ]

  pub move_to_end-NodupKeys : (k : String) (d : Dict V) → NodupKeys d → NodupKeys (move_to_end k d)
  unfolding move_to_end
  move_to_end-NodupKeys k d h = elim (Option-cases (lookup k d)) [
    | inl e ↦ rw (e, move_to_end) h
    | inr (v, e) ↦
        rw (e, move_to_end)
          (append_one-NodupKeys k v (erase k d) (ground (arith, lookup-erase k k d h))
            (erase-NodupKeys k d h))
  ]

  pub length-move_to_end : (k : String) (d : Dict V) → length (move_to_end k d) ≡ length d
  unfolding move_to_end
  length-move_to_end k d = elim (Option-cases (lookup k d)) [
    | inl e ↦ rw (e, move_to_end)
    | inr (v, e) ↦
        rw (e, move_to_end)
          (omega (arith, length-append (erase k d) ((k, v) ∷ []), length-erase k v d e))
  ]

  pub lookup-update :
      (k : String) (d e : Dict V)
      → NodupKeys e
      → lookup k (update d e) ≡ (elim (lookup k e) [ none ↦ lookup k d | some v ↦ some v ])
  unfolding lookup update
  lookup-update k d [] h = refl
  lookup-update k d ((j, v) ∷ e) h =
      ground (arith, lookup-update k (insert j v d) e h.1, lookup-insert k j v d)
