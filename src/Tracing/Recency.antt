-- ===== src/Tracing/Recency.antt =====
-- Which calls the recorder retains, against an unbounded list of the calls by their last event.
use mathlib.Core.List.{reverse-cons, reverse-append}
use as_platform.Base.{
  ℕ, zero, suc, ◌-◌, ◌≤◌, ◌≡◌, ◌≢◌, refl, sym, ap, String, List, [], ◌∷◌, ◌++◌, false, none, arith,
  ◌==◌, if◌then◌else◌, length, take, drop, reverse, pop_front, pop_front_lem, length-append,
  contains, Bool-cases, inl, inr, leb, length-take-le,
}
use as_platform.Base.Dict.{Dict, lookup, erase, keys, NodupKeys}
use as_platform.Tracing.{TraceEvent, TraceRecorder, new_recorder, record_event, known_call_ids}
use as_platform.Tracing.Bounds.{IsValid, record_event-IsValid, noted, noted-last}

-- Drops the first occurrence.
unfoldable remove : String → List String → List String
remove k [] = []
remove k (j ∷ l) = if k == j then l else j ∷ remove k l

-- Moves a Call-ID to the front, or puts it there.
unfoldable pub touch : String → List String → List String
unfolding remove
touch k l = k ∷ remove k l

-- The Call-IDs of a history of events, each once, that of the latest event first.
unfoldable pub by_last_event : List TraceEvent → List String → List String
by_last_event [] ids = ids
by_last_event (e ∷ es) ids = by_last_event es (touch e.call_id ids)

unfoldable pub record_events : List TraceEvent → TraceRecorder → TraceRecorder
record_events [] r = r
record_events (e ∷ es) r = record_events es (record_event e r)

module _ {ℓ} {A : Type ℓ} where
  take_all : (n : ℕ) (xs : List A) → length xs ≤ n → take n xs ≡ xs
  take_all zero [] h = refl
  take_all (suc n) [] h = refl
  take_all zero (x ∷ xs) h = absurd (omega arith)
  take_all (suc n) (x ∷ xs) h = ap (◌∷◌ x) (take_all n xs (omega arith))

  take-append : (n : ℕ) (xs ys : List A) → n ≤ length xs → take n (xs ++ ys) ≡ take n xs
  take-append zero xs ys h = refl
  take-append (suc n) [] ys h = absurd (omega arith)
  take-append (suc n) (x ∷ xs) ys h = ap (◌∷◌ x) (take-append n xs ys (omega arith))

  length-reverse : (xs : List A) → length (reverse xs) ≡ length xs
  length-reverse [] = refl
  length-reverse (x ∷ xs) =
      omega (
        arith,
        ap length (reverse-cons x xs),
        length-append (reverse xs) (x ∷ []),
        length-reverse xs,
      )

  reverse-drop : (n : ℕ) (xs : List A) → reverse (drop n xs) ≡ take (length xs - n) (reverse xs)
  reverse-drop zero xs =
      sym (take_all (length xs - 0) (reverse xs) (omega (arith, length-reverse xs)))
  reverse-drop (suc n) [] = sym (take_all (0 - suc n) [] (omega arith))
  reverse-drop (suc n) (x ∷ xs) =
      let shorter : length (x ∷ xs) - suc n ≡ length xs - n = omega arith in
      rw (shorter, reverse-cons x xs, reverse-drop n xs)
        (sym (take-append (length xs - n) (reverse xs) (x ∷ []) (omega (arith, length-reverse xs))))

  -- Cutting the oldest entries off is taking the newest ones.
  reverse-pop_front : (n : ℕ) (xs : List A) → reverse (pop_front n xs) ≡ take n (reverse xs)
  reverse-pop_front n xs =
      rw (pop_front_lem n xs, reverse-drop (length xs - n) xs)
        (cut (length xs) (reverse xs) (length-reverse xs))
    where
      cut : (m : ℕ) (ys : List A) → length ys ≡ m → take (m - (m - n)) ys ≡ take n ys
      cut m ys h = elim (Bool-cases (leb m n)) [
        | inl all ↦
            let count : m - (m - n) ≡ m = ground arith in
            rw (count, take_all m ys (omega arith)) (sym (take_all n ys (ground arith)))
        | inr some_cut ↦ let count : m - (m - n) ≡ n = ground arith in rw count
      ]

take-remove-take :
    (n : ℕ) (k : String) (l : List String)
    → take n (remove k (take (suc n) l)) ≡ take n (remove k l)
unfolding remove
take-remove-take zero k l = refl
take-remove-take (suc n) k [] = refl
take-remove-take (suc n) k (j ∷ l) =
    ground
      (arith, take-remove-take n k l, take_all (suc n) (take (suc n) l) (length-take-le (suc n) l))

take-touch :
    (n : ℕ) (k : String) (l : List String) → take n (touch k (take n l)) ≡ take n (touch k l)
unfolding touch
take-touch zero k l = refl
take-touch (suc n) k l = ap (◌∷◌ k) (take-remove-take n k l)

remove-last_ne :
    (k j : String) (l : List String) → k ≢ j → remove k (l ++ j ∷ []) ≡ remove k l ++ j ∷ []
unfolding remove
remove-last_ne k j [] h = ground arith
remove-last_ne k j (i ∷ l) h = ground (arith, remove-last_ne k j l h)

remove-last_self :
    (k : String) (l : List String) → contains l k ≡ false → remove k (l ++ k ∷ []) ≡ l
unfolding remove contains
remove-last_self k [] h = ground arith
remove-last_self k (i ∷ l) h = ground (arith, remove-last_self k l)

contains-last :
    (k j : String) (l : List String)
    → contains l k ≡ false
    → k ≢ j
    → contains (l ++ j ∷ []) k ≡ false
unfolding contains
contains-last k j [] h other = ground arith
contains-last k j (i ∷ l) h other = ground (arith, contains-last k j l)

module _ {V : Type 0} where
  -- A key without an entry is not among the keys, in either order.
  not_in_reverse :
      (k : String) (d : Dict V) → lookup k d ≡ none → contains (reverse (keys d)) k ≡ false
  unfolding lookup keys contains
  not_in_reverse k [] h = refl
  not_in_reverse k (e ∷ d) h =
      rw (reverse-cons e.0 (keys d))
        (contains-last k e.0 (reverse (keys d)) (not_in_reverse k d (ground arith)) (ground arith))

  reverse-keys-erase :
      (k : String) (d : Dict V)
      → NodupKeys d
      → reverse (keys (erase k d)) ≡ remove k (reverse (keys d))
  unfolding keys erase remove
  reverse-keys-erase k [] h = refl
  reverse-keys-erase k (e ∷ d) h = rw (reverse-cons e.0 (keys d)) (
      ground (
        arith,
        reverse-cons e.0 (keys (erase k d)),
        reverse-keys-erase k d h.1,
        remove-last_ne k e.0 (reverse (keys d)),
        remove-last_self k (reverse (keys d)),
        not_in_reverse e.0 d h.0,
      ))

  keys-append : (d e : Dict V) → keys (d ++ e) ≡ keys d ++ keys e
  unfolding keys
  keys-append [] e = refl
  keys-append (x ∷ d) e = ap (◌∷◌ x.0) (keys-append d e)

  keys-drop : (n : ℕ) (d : Dict V) → keys (drop n d) ≡ drop n (keys d)
  unfolding keys
  keys-drop zero d = refl
  keys-drop (suc n) [] = refl
  keys-drop (suc n) (e ∷ d) = keys-drop n d

  length-keys : (d : Dict V) → length (keys d) ≡ length d
  unfolding keys
  length-keys [] = refl
  length-keys (e ∷ d) = ap suc (length-keys d)

  keys-pop_front : (n : ℕ) (d : Dict V) → keys (pop_front n d) ≡ pop_front n (keys d)
  keys-pop_front n d =
      rw (pop_front_lem n d, pop_front_lem n (keys d), length-keys d) (keys-drop (length d - n) d)

-- One event moves its call to the front, and the bound cuts the list of calls off.
known_call_ids-record_event :
    (e : TraceEvent) (r : TraceRecorder)
    → NodupKeys r.traces
    → known_call_ids (record_event e r) ≡ take r.max_calls (touch e.call_id (known_call_ids r))
unfolding known_call_ids record_event touch keys
known_call_ids-record_event e r h = rw (
  keys-pop_front r.max_calls (noted e r.traces),
  reverse-pop_front r.max_calls (keys (noted e r.traces)),
  noted-last e r.traces h,
  keys-append (erase e.call_id r.traces),
  reverse-append (keys (erase e.call_id r.traces)),
  reverse-keys-erase e.call_id r.traces h,
)

known_from :
    (es : List TraceEvent) (r : TraceRecorder) (ids : List String)
    → IsValid r
    → known_call_ids r ≡ take r.max_calls ids
    → known_call_ids (record_events es r) ≡ take r.max_calls (by_last_event es ids)
unfolding record_events by_last_event record_event
known_from [] r ids v h = h
known_from (e ∷ es) r ids v h =
    known_from es (record_event e r) (touch e.call_id ids) (record_event-IsValid e r v)
      (rw (known_call_ids-record_event e r v.distinct, h) (take-touch r.max_calls e.call_id ids))

-- After any history of events a new recorder retains exactly the `max_calls` calls with the latest
-- events, each once, and lists them newest first.
pub known_call_ids-record_events :
    (max_calls : ℕ) (es : List TraceEvent)
    → known_call_ids (record_events es (new_recorder max_calls))
      ≡ take max_calls (by_last_event es [])
unfolding new_recorder known_call_ids keys
known_call_ids-record_events max_calls es =
    known_from es (new_recorder max_calls) [] (record { distinct = tt; bounded = omega arith })
      (sym (take_all max_calls [] (omega arith)))
