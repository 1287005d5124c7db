-- ===== src/RedisStore/Memory.antt =====
-- What Redis documents of the commands that the worker sends, on the view of the database as a dict in
-- the order of its last accesses; and the `trim` of the Redis store against that of the in-memory one.
use mathlib.Core.List.{Permᴰ}
use as_platform.Base.{
  ℕ, zero, suc, ◌-◌, ◌<>◌, ◌≡◌, refl, sym, ap, ◌∙◌, inl, inr, String, List, [], ◌∷◌, ◌++◌, Option,
  value, ltb, length, take, contains, arith, Bool-cases, leb, take-fits, if◌then◌else◌, ◌≤◌,
}
use as_platform.Base.Dict.{Dict, lookup, insert, erase, move_to_end, keys}
use as_platform.StateStore.{family, evict, trim}
use as_platform.RedisStore.{
  RedisClient, or_zero, victims, idle_times, delete_all, evict_from, evict_found, trim_keys,
}
use as_platform.RedisStore.Ranking.{timed, Falling, Falling-Once, sort_idle-Perm}
use as_platform.RedisStore.Scan.{union, Once-union, contains-union, length-union, same_keys-Permᴰ}

-- `entries` lists the keys from the one whose last access is longest ago. The calls of a `trim` do not
-- count as accesses, and no time passes between them. A plain prefix has no character that means
-- something else in a pattern. A scan finds the keys that match and no other, and may list a key more
-- than once.
pub record Documented {E : Type 0} (client : RedisClient E) : Type 1 where
  pub entries : client.State → Dict String
  pub idle : String → client.State → Option ℕ
  pub found : String → client.State → List String
  pub IsPlain : String → Type 0
  pub get_reply :
      (k : String) (s : client.State) → (client.get k s).0 ≡ value (lookup k (entries s))
  pub get_entries :
      (k : String) (s : client.State) → entries (client.get k s).1 ≡ move_to_end k (entries s)
  pub set_reply : (k t : String) (s : client.State) → (client.set k t s).0 ≡ value tt
  pub set_entries :
      (k t : String) (s : client.State)
      → entries (client.set k t s).1 ≡ erase k (entries s) ++ (k, t) ∷ []
  pub scan_lem : (p : String) (s : client.State) → client.scan (p <> "*") s ≡ (value (found p s), s)
  pub found_keys :
      (p : String) (s : client.State)
      → IsPlain p
      → (k : String) → contains (found p s) k ≡ contains (family p (entries s)) k
  pub idletime_lem : (k : String) (s : client.State) → client.idletime k s ≡ (value (idle k s), s)
  pub delete_reply : (k : String) (s : client.State) → (client.delete k s).0 ≡ value tt
  pub delete_entries :
      (k : String) (s : client.State) → entries (client.delete k s).1 ≡ erase k (entries s)

Permᴰ-length : {xs ys : List String} → Permᴰ xs ys → length xs ≡ length ys
Permᴰ-length Permᴰ.nil = refl
Permᴰ-length (Permᴰ.cons e p) = ap suc (Permᴰ-length p)
Permᴰ-length (Permᴰ.swap e f) = refl
Permᴰ-length (Permᴰ.trans p q) = Permᴰ-length p ∙ Permᴰ-length q

module _ {V : Type 0} where
  -- The keys, erased one after the other.
  erase_all : List String → Dict V → Dict V
  erase_all [] d = d
  erase_all (k ∷ ks) d = erase_all ks (erase k d)

  evict-erase_all :
      (ks : List String) (limit : ℕ) (d : Dict V)
      → evict ks limit d ≡ erase_all (take (length ks - limit) ks) d
  unfolding evict erase_all
  evict-erase_all [] limit d = ground arith
  evict-erase_all (k ∷ ks) limit d = elim (Bool-cases (ltb limit (length (k ∷ ks)))) [
    | inl more ↦
        let count : length (k ∷ ks) - limit ≡ suc (length ks - limit) = ground arith in
        rw (more, count) (evict-erase_all ks limit (erase k d))
    | inr fits ↦ let count : length (k ∷ ks) - limit ≡ 0 = ground arith in rw (fits, count) refl
  ]

insert-timed :
    (f : String → ℕ) (k : String) (js : List String)
    → insert k (f k) (timed f js) ≡ timed f (if contains js k then js else js ++ k ∷ [])
unfolding insert contains
insert-timed f k [] = refl
insert-timed f k (j ∷ js) = ground (arith, insert-timed f k js)

-- What stands above the limit among the keys that are listed, while each stands there at least once.
take-excess :
    (ks : List String) (n limit : ℕ)
    → length ks ≤ n
    → take (n - limit) ks ≡ take (length ks - (limit - (n - length ks))) ks
take-excess ks n limit h = elim (Bool-cases (leb (n - length ks) limit)) [
  | inl t ↦
      let same : n - limit ≡ length ks - (limit - (n - length ks)) = ground arith in
      ap (λ m. take m ks) same
  | inr f ↦
      take-fits (n - limit) ks (ground arith)
      ∙ sym (take-fits (length ks - (limit - (n - length ks))) ks (ground arith))
]

keys-take-timed :
    (f : String → ℕ) (n : ℕ) (ks : List String) → keys (take n (timed f ks)) ≡ take n ks
unfolding keys
keys-take-timed f zero ks = refl
keys-take-timed f (suc n) [] = refl
keys-take-timed f (suc n) (k ∷ ks) = ap (λ r. k ∷ r) (keys-take-timed f n ks)

module _ {E : Type 0} (client : RedisClient E) (redis : Documented client) where
  open redis use {entries, idle, found, IsPlain}

  -- How long a key has been idle, as `trim` reads it.
  abbrev pub idle_for : client.State → String → ℕ
  idle_for s k = or_zero (idle k s)

  idle_times-timed :
      (ks js : List String) (s : client.State)
      → idle_times client ks (timed (idle_for s) js) s
        ≡ (value (timed (idle_for s) (union ks js)), s)
  unfolding idle_times
  idle_times-timed [] js s = refl
  idle_times-timed (k ∷ ks) js s =
      rw (redis.idletime_lem k s, idle_times)
        (rw (insert-timed (idle_for s) k js, redis.idletime_lem k s)
          (idle_times-timed ks (if contains js k then js else js ++ k ∷ []) s))

  delete_all-erase_all :
      (ks : List String) (s : client.State)
      → ((delete_all client ks s).0 ≡ value tt)
        × (entries (delete_all client ks s).1 ≡ erase_all ks (entries s))
  unfolding delete_all erase_all
  delete_all-erase_all [] s = (refl, refl)
  delete_all-erase_all (k ∷ ks) s =
      let rest = delete_all-erase_all ks (client.delete k s).1 in
      rw (redis.delete_reply k s, delete_all)
        (rest.0, rest.1 ∙ ap (erase_all ks) (redis.delete_entries k s))

  -- How many times a scan lists a key that it has listed before.
  abbrev pub repeats : String → client.State → ℕ
  repeats p s = length (found p s) - length (family p (entries s))

  -- The keys that a scan finds, each once, are those of the family.
  found-Permᴰ :
      (p : String) (s : client.State)
      → IsPlain p
      → Falling (idle_for s) (family p (entries s))
      → Permᴰ (union (found p s) []) (family p (entries s))
  unfolding contains
  found-Permᴰ p s plain f =
      same_keys-Permᴰ (union (found p s) []) (family p (entries s)) (Once-union (found p s) [] tt)
        (Falling-Once (idle_for s) (family p (entries s)) f)
        (λ a. contains-union (found p s) [] a ∙ redis.found_keys p s plain a)

  family-length :
      (p : String) (s : client.State)
      → IsPlain p
      → Falling (idle_for s) (family p (entries s))
      → length (family p (entries s)) ≤ length (found p s)
  family-length p s plain f =
      omega (arith, Permᴰ-length (found-Permᴰ p s plain f), length-union (found p s) [])

  victims-family :
      (p : String) (limit : ℕ) (s : client.State)
      → IsPlain p
      → Falling (idle_for s) (family p (entries s))
      → let ks = family p (entries s) in
        victims (found p s) limit (timed (idle_for s) (union (found p s) []))
        ≡ take (length ks - (limit - repeats p s)) ks
  unfolding victims
  victims-family p limit s plain f =
      let ks = family p (entries s) in
      rw (sort_idle-Perm (idle_for s) ∣ found-Permᴰ p s plain f ∣₁ f).1 (
        keys-take-timed (idle_for s) _ ks
        ∙ take-excess ks (length (found p s)) limit (family-length p s plain f))

  trim-erase_all :
      (p : String) (limit : ℕ) (s : client.State)
      → trim p limit (entries s)
        ≡ erase_all
            (take (length (family p (entries s)) - limit) (family p (entries s)))
            (entries s)
  unfolding trim
  trim-erase_all p limit s = evict-erase_all (family p (entries s)) limit (entries s)

  -- A `trim` of the Redis store raises nothing and leaves the database as the in-memory store's
  -- `trim` leaves the dict of its last accesses, with a limit that is lower by the number of times that
  -- the scan lists a key again: with the same limit, if it lists each key once. The prefix is plain,
  -- and no two keys of the family have been idle for the same time.
  pub trim_keys-trim :
      (p : String) (limit : ℕ) (s : client.State)
      → IsPlain p
      → Falling (idle_for s) (family p (entries s))
      → ((trim_keys client p limit s).0 ≡ value tt)
        × (entries (trim_keys client p limit s).1 ≡ trim p (limit - repeats p s) (entries s))
  unfolding trim_keys evict_found evict_from
  trim_keys-trim p limit s plain f =
      let times = idle_times-timed (found p s) [] s in
      let gone = victims (found p s) limit (timed (idle_for s) (union (found p s) [])) in
      let deleted = delete_all-erase_all gone s in
      rw (redis.scan_lem p s, trim_keys)
        (elim (Bool-cases (ltb limit (length (found p s)))) [
          | inl more ↦ rw more (
              rw times (
                deleted.0,
                deleted.1
                    ∙ rw (victims-family p limit s plain f)
                        (sym (trim-erase_all p (limit - repeats p s) s)),
              ))
          | inr fits ↦
              let count : length (family p (entries s)) - (limit - repeats p s) ≡ 0 =
                ground (arith, family-length p s plain f) in
              rw fits (
                refl,
                rw (trim-erase_all p (limit - repeats p s) s, count) (unfold erase_all in refl),
              )
        ])
