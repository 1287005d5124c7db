-- ===== src/StateStore.antt =====
-- state_store.py: the `StateStore` seam and `InMemoryStateStore`. Every method of the in-memory store
-- runs under its lock, so it is one atomic function of the ordered dict. A limit is a natural
-- number. `RedisStateStore` is not here.
pub mod Trim
pub mod Lawful
use as_platform.Base.{
  ℕ, ◌≡◌, Bool, true, false, String, List, [], ◌∷◌, Option, none, some, ◌==◌, if◌then◌else◌, ltb,
  length, keep, startswith,
}
use as_platform.Base.Dict.{Dict, lookup, insert, erase, move_to_end, keys}

-- The seam: the three operations that a caller of a store uses.
pub record StateStore (V : Type 0) : Type 1 where
  pub State : Type 0
  pub read : String → State → Option V × State
  pub write : String → V → State → State
  pub trim : String → ℕ → State → State

-- What a caller of a store that begins in a state relies on, on the states that its operations reach.
pub record IsLawful {V : Type 0} (S : StateStore V) (initial : S.State) : Type 1 where
  pub IsValid : S.State → Type 0
  pub initial-IsValid : IsValid initial
  pub read-initial : (k : String) → (S.read k initial).0 ≡ none
  pub read-IsValid : (k : String) (s : S.State) → IsValid s → IsValid (S.read k s).1
  pub write-IsValid : (k : String) (v : V) (s : S.State) → IsValid s → IsValid (S.write k v s)
  pub trim-IsValid : (p : String) (n : ℕ) (s : S.State) → IsValid s → IsValid (S.trim p n s)
  pub read-write :
      (j k : String) (v : V) (s : S.State)
      → IsValid s
      → (S.read j (S.write k v s)).0 ≡ (if j == k then some v else (S.read j s).0)
  pub read-read :
      (j k : String) (s : S.State) → IsValid s → (S.read j (S.read k s).1).0 ≡ (S.read j s).0
  pub read-trim_outside :
      (j p : String) (n : ℕ) (s : S.State)
      → IsValid s
      → startswith j p ≡ false
      → (S.read j (S.trim p n s)).0 ≡ (S.read j s).0

module _ {V : Type 0} where
  unfoldable pub read : String → Dict V → Option V × Dict V
  unfolding lookup move_to_end
  read key entries = elim (lookup key entries) [
    | none ↦ (none, entries)
    | some v ↦ (lookup key (move_to_end key entries), move_to_end key entries)
  ]

  unfoldable pub write : String → V → Dict V → Dict V
  unfolding insert move_to_end
  write key value entries = move_to_end key (insert key value entries)

  -- The keys that carry the prefix, least recently used first.
  unfoldable pub family : String → Dict V → List String
  unfolding keys
  family prefix entries = keep (λ key. startswith key prefix) (keys entries)

  -- `while len(family) > limit: del entries[family.pop(0)]`
  unfoldable pub evict : List String → ℕ → Dict V → Dict V
  unfolding erase
  evict [] limit entries = entries
  evict (key ∷ rest) limit entries =
      if ltb limit (length (key ∷ rest)) then evict rest limit (erase key entries) else entries

  unfoldable pub trim : String → ℕ → Dict V → Dict V
  unfolding family evict
  trim prefix limit entries = evict (family prefix entries) limit entries

unfoldable pub in_memory_store : (V : Type 0) → StateStore V
unfolding read write trim
in_memory_store V = record { State = Dict V; read = read; write = write; trim = trim }

-- What a store that has just been made holds.
unfoldable pub new_in_memory_store : (V : Type 0) → (in_memory_store V).State
unfolding in_memory_store
new_in_memory_store V = []
