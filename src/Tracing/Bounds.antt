-- ===== src/Tracing/Bounds.antt =====
-- The recorder's bound, and what one recorded event changes.
use as_platform.Base.{
  ℕ, zero, suc, ◌+◌, ◌-◌, ◌≤◌, ◌<◌, ◌≡◌, ◌≢◌, refl, String, List, [], ◌∷◌, ◌++◌, none, some, arith,
  sym, ap, subst, ◌⊎◌, inl, inr, Option-cases, length, drop, pop_front, pop_front_lem,
  pop_front-fits, length-pop_front-le, length-append,
}
use as_platform.Base.Dict.{Dict, lookup, get_or, insert, erase, move_to_end, NodupKeys}
use as_platform.Base.Dict.Laws.{
  lookup-insert, insert-NodupKeys, lookup-move_to_end, move_to_end-NodupKeys, lookup-append,
  lookup-last, erase-insert, length-move_to_end, length-insert-present, insert-absent,
}
use as_platform.Tracing.{TraceEvent, TraceRecorder, record_event, append_event, trace_for}

pub record IsValid (r : TraceRecorder) : Type 0 where
  pub distinct : NodupKeys r.traces
  pub bounded : length r.traces ≤ r.max_calls

drop-NodupKeys : (n : ℕ) (d : Dict (List TraceEvent)) → NodupKeys d → NodupKeys (drop n d)
drop-NodupKeys zero d h = h
drop-NodupKeys (suc n) [] h = h
drop-NodupKeys (suc n) (e ∷ d) h = drop-NodupKeys n d h.1

pop_front-NodupKeys : (n : ℕ) (d : Dict (List TraceEvent)) → NodupKeys d → NodupKeys (pop_front n d)
pop_front-NodupKeys n d h = rw (pop_front_lem n d) (drop-NodupKeys _ d h)

append_event-NodupKeys :
    (e : TraceEvent) (d : Dict (List TraceEvent)) → NodupKeys d → NodupKeys (append_event e d)
unfolding append_event
append_event-NodupKeys e d h = insert-NodupKeys e.call_id _ d h

-- The trace dict after the append and the move, before the bound is applied.
abbrev pub noted : TraceEvent → Dict (List TraceEvent) → Dict (List TraceEvent)
noted e d = move_to_end e.call_id (append_event e d)

noted-NodupKeys :
    (e : TraceEvent) (d : Dict (List TraceEvent)) → NodupKeys d → NodupKeys (noted e d)
noted-NodupKeys e d h = move_to_end-NodupKeys e.call_id _ (append_event-NodupKeys e d h)

-- The touched call stands last.
pub noted-last :
    (e : TraceEvent) (d : Dict (List TraceEvent))
    → NodupKeys d
    → noted e d ≡ erase e.call_id d ++ (e.call_id, get_or e.call_id [] d ++ e ∷ []) ∷ []
unfolding move_to_end append_event
noted-last e d h =
    let events = get_or e.call_id [] d ++ e ∷ [] in
    ground (arith, lookup-insert e.call_id e.call_id events d, erase-insert e.call_id events d h)

-- Whatever is recorded, no call is kept twice and no more calls than `max_calls` are kept.
pub record_event-IsValid :
    (e : TraceEvent) (r : TraceRecorder) → IsValid r → IsValid (record_event e r)
unfolding record_event
record_event-IsValid e r v = record {
  distinct = pop_front-NodupKeys r.max_calls _ (noted-NodupKeys e r.traces v.distinct);
  bounded = length-pop_front-le r.max_calls _;
}

drop-last {ℓ} :
    {A : Type ℓ} (n : ℕ) (xs : List A) (x : A)
    → n ≤ length xs
    → drop n (xs ++ x ∷ []) ≡ drop n xs ++ x ∷ []
drop-last zero xs x h = refl
drop-last (suc n) [] x h = absurd (omega arith)
drop-last (suc n) (y ∷ xs) x h = drop-last n xs x (omega arith)

lookup-drop-last :
    (n : ℕ) (k : String) (v : List TraceEvent) (d : Dict (List TraceEvent))
    → n ≤ length d
    → NodupKeys (d ++ (k, v) ∷ [])
    → lookup k (drop n (d ++ (k, v) ∷ [])) ≡ some v
unfolding lookup
lookup-drop-last zero k v [] h u = ground arith
lookup-drop-last zero k v (e ∷ d) h u = ground (
  arith,
  lookup-drop-last zero k v d (omega arith) u.1,
  lookup-append e.0 d ((k, v) ∷ []),
  lookup-last e.0 k v,
)
lookup-drop-last (suc n) k v [] h u = absurd (omega arith)
lookup-drop-last (suc n) k v (e ∷ d) h u = lookup-drop-last n k v d (omega arith) u.1

-- A recorder that keeps at least one call has, after an event is recorded, that event at the end of
-- its call's trace, behind the events that the trace held before.
pub trace_for-record_event :
    (e : TraceEvent) (r : TraceRecorder)
    → IsValid r
    → 0 < r.max_calls
    → (trace_for e.call_id (record_event e r)).events ≡ (trace_for e.call_id r).events ++ e ∷ []
unfolding trace_for record_event get_or
trace_for-record_event e r v pos =
    let d = noted e r.traces in
    let kept = erase e.call_id r.traces in
    let n = length d - r.max_calls in
    let events = get_or e.call_id [] r.traces ++ e ∷ [] in
    let last = noted-last e r.traces v.distinct in
    let size : n ≤ length kept =
      omega (arith, ap length last, length-append {0} kept ((e.call_id, events) ∷ [])) in
    let found : lookup e.call_id (pop_front r.max_calls d) ≡ some events =
      rw (pop_front_lem r.max_calls d) (
        subst (λ x. lookup e.call_id (drop n x) ≡ some events) (sym last)
          (lookup-drop-last n e.call_id events kept size
            (subst NodupKeys last (noted-NodupKeys e r.traces v.distinct)))) in
    rw (found, get_or)

length-noted :
    (e : TraceEvent) (d : Dict (List TraceEvent))
    → length (noted e d) ≡ (elim (lookup e.call_id d) [ none ↦ length d + 1 | some v ↦ length d ])
unfolding append_event
length-noted e d =
    let events = get_or e.call_id [] d ++ e ∷ [] in
    elim (Option-cases (lookup e.call_id d)) [
      | inl new ↦ rw new (
          omega (
            arith,
            length-move_to_end e.call_id (insert e.call_id events d),
            ap length (insert-absent e.call_id events d new),
            length-append {0} d ((e.call_id, events) ∷ []),
          ))
      | inr (old, known) ↦ rw known (
          omega (
            arith,
            length-move_to_end e.call_id (insert e.call_id events d),
            length-insert-present e.call_id events old d known,
          ))
    ]

-- While the call is already traced, or the recorder has room for one more, recording an event
-- changes the trace of no other call.
trace_for-record_event_ne :
    (j : String) (e : TraceEvent) (r : TraceRecorder)
    → IsValid r
    → j ≢ e.call_id
    → (lookup e.call_id r.traces ≢ none) ⊎ (length r.traces < r.max_calls)
    → trace_for j (record_event e r) ≡ trace_for j r
unfolding trace_for record_event get_or append_event
trace_for-record_event_ne j e r v other room =
    let events = get_or e.call_id [] r.traces ++ e ∷ [] in
    let fits : length (noted e r.traces) ≤ r.max_calls =
      ground (arith, length-noted e r.traces, v.bounded) in
    rw (pop_front-fits r.max_calls (noted e r.traces) fits) (
      ground (
        arith,
        lookup-move_to_end j e.call_id (insert e.call_id events r.traces)
            (insert-NodupKeys e.call_id events r.traces v.distinct),
        lookup-insert j e.call_id events r.traces,
      ))
