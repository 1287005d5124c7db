-- ===== src/StateStore/Lawful.antt =====
-- The in-memory store meets the contract of the seam.
use as_platform.Base.{ℕ, ◌≡◌, String, List, [], ◌∷◌, arith}
use as_platform.Base.Dict.{Dict, lookup, insert, erase, move_to_end, NodupKeys}
use as_platform.Base.Dict.Laws.{
  insert-NodupKeys, lookup-move_to_end, move_to_end-NodupKeys, erase-NodupKeys,
}
use as_platform.StateStore.{read, write, family, evict, trim}

module _ {V : Type 0} where
  pub read-state : (k : String) (d : Dict V) → (read k d).1 ≡ move_to_end k d
  unfolding read move_to_end
  read-state k d = ground arith

  pub read-value : (k : String) (d : Dict V) → NodupKeys d → (read k d).0 ≡ lookup k d
  unfolding read
  read-value k d h = ground (arith, lookup-move_to_end k k d h)

  evict-NodupKeys : (f : List String) (n : ℕ) (d : Dict V) → NodupKeys d → NodupKeys (evict f n d)
  unfolding evict
  evict-NodupKeys [] n d h = h
  evict-NodupKeys (k ∷ f) n d h =
      ground (arith, evict-NodupKeys f n (erase k d) (erase-NodupKeys k d h))

  pub trim-NodupKeys : (p : String) (n : ℕ) (d : Dict V) → NodupKeys d → NodupKeys (trim p n d)
  unfolding trim
  trim-NodupKeys p n d h = evict-NodupKeys (family p d) n d h

  pub write-NodupKeys : (k : String) (v : V) (d : Dict V) → NodupKeys d → NodupKeys (write k v d)
  unfolding write
  write-NodupKeys k v d h = move_to_end-NodupKeys k (insert k v d) (insert-NodupKeys k v d h)

  pub read-NodupKeys : (k : String) (d : Dict V) → NodupKeys d → NodupKeys (read k d).1
  read-NodupKeys k d h = rw (read-state k d) (move_to_end-NodupKeys k d h)
