-- ===== src/InternalApi/Feed.antt =====
-- internal_api.py, `/ws/events`: which calls a round of the feed sends.
use mathlib.Core.Bool.{◌&&◌}
use mathlib.Core.Logic.{◌≢◌}
use mathlib.Core.List.{reverse_aux}
use as_platform.Base.{
  ℕ, zero, suc, ◌≡◌, ◌⊎◌, inl, inr, refl, sym, ap, subst, ◌∙◌, Bool, true, false, not, String, List,
  [], ◌∷◌, Option, none, some, map, reverse, take, keep, contains, arith,
}
use as_platform.Base.Dict.{Dict, keys}
use as_platform.Tracing.{TraceEvent, CallTrace, TraceRecorder, recent, known_call_ids, traces_of}
use as_platform.InternalApi.{TraceDocument, feed_batch, send_new, poll_events, trace_payload}

-- The calls that the console has not been told of.
abbrev pub unseen : List String → List String → List String
unseen seen ids = keep (λ id. not (contains seen id)) ids

abbrev pub ids_of : List TraceDocument → List String
ids_of documents = map (λ d. d.call_id) documents

and-false : (b : Bool) → (b && false) ≡ false
and-false true = refl
and-false false = refl

pub contains-keep :
    (p : String → Bool) (xs : List String) (a : String)
    → contains (keep p xs) a ≡ (contains xs a && p a)
unfolding contains
contains-keep p [] a = refl
contains-keep p (x ∷ xs) a = ground (arith, contains-keep p xs a)

keys-map : {V : Type 0} (d : Dict V) → keys d ≡ map (λ e. e.0) d
unfolding keys
keys-map [] = refl
keys-map ((k, v) ∷ d) = ap (λ l. k ∷ l) (keys-map d)

traces_of-ids : (d : Dict (List TraceEvent)) → map (λ t. t.call_id) (traces_of d) ≡ map (λ e. e.0) d
unfolding traces_of
traces_of-ids [] = refl
traces_of-ids (e ∷ d) = ap (λ l. e.0 ∷ l) (traces_of-ids d)

map-take :
    {A : Type 0} (f : A → String) (n : ℕ) (xs : List A) → map f (take n xs) ≡ take n (map f xs)
map-take f zero xs = refl
map-take f (suc n) [] = refl
map-take f (suc n) (x ∷ xs) = ap (λ l. f x ∷ l) (map-take f n xs)

map-reverse_aux :
    {V : Type 0} (d acc : Dict V)
    → map (λ e. e.0) (reverse_aux d acc) ≡ reverse_aux (map (λ e. e.0) d) (map (λ e. e.0) acc)
map-reverse_aux [] acc = refl
map-reverse_aux (e ∷ d) acc = map-reverse_aux d (e ∷ acc)

-- The calls that `recent` returns are the first that `known_call_ids` names.
recent-ids :
    (n : ℕ) (r : TraceRecorder) → map (λ t. t.call_id) (recent n r) ≡ take n (known_call_ids r)
unfolding recent known_call_ids
recent-ids n r =
    traces_of-ids (take n (reverse r.traces))
    ∙ map-take (λ e. e.0) n (reverse r.traces)
    ∙ ap (take n) (map-reverse_aux r.traces [] ∙ ap reverse (sym (keys-map r.traces)))

module _ (isoformat : ℕ → String) where
  batch-ids :
      (new_ids : List String) (ts : List CallTrace)
      → ids_of (map (trace_payload isoformat) (keep (λ t. contains new_ids t.call_id) ts))
        ≡ keep (contains new_ids) (map (λ t. t.call_id) ts)
  unfolding trace_payload
  batch-ids new_ids [] = refl
  batch-ids new_ids (t ∷ ts) = ground (arith, batch-ids new_ids ts)

  -- A batch has the new ones among the 50 latest calls.
  feed_batch-ids :
      (new_ids : List String) (r : TraceRecorder)
      → ids_of (feed_batch isoformat new_ids r)
        ≡ keep (contains new_ids) (take 50 (known_call_ids r))
  unfolding feed_batch
  feed_batch-ids new_ids r =
      batch-ids new_ids (recent 50 r) ∙ ap (keep (contains new_ids)) (recent-ids 50 r)

  -- What a round of the feed does that reads these two states of the recorder.
  abbrev pub Polled :
      List String
      → TraceRecorder
      → TraceRecorder
      → Option (List TraceDocument) × List String
      → Type 0
  Polled seen r r' result =
      ((unseen seen (known_call_ids r) ≡ []) × (result ≡ (none, seen)))
      ⊎ ((batch : List TraceDocument) × (unseen seen (known_call_ids r) ≢ [])
          × (result ≡ (some batch, known_call_ids r))
          × (ids_of batch
              ≡ keep (contains (unseen seen (known_call_ids r))) (take 50 (known_call_ids r'))))

  send_new-Polled :
      (ids seen : List String) (r r' : TraceRecorder)
      → unseen seen (known_call_ids r) ≡ ids
      → Polled seen r r' (send_new isoformat ids (known_call_ids r) seen r')
  unfolding send_new
  send_new-Polled [] seen r r' e = inl (e, refl)
  send_new-Polled (id ∷ ids) seen r r' e = inr (
    feed_batch isoformat (id ∷ ids) r',
    (λ none_new. cc),
    refl,
    ap (λ l. ids_of (feed_batch isoformat l r')) (sym e)
        ∙ feed_batch-ids (unseen seen (known_call_ids r)) r',
  )

  -- A round of the feed sends nothing, and counts nothing as seen, while at its first read the
  -- recorder knows no call that is not seen. Otherwise it sends one batch, of those calls that are
  -- among the 50 with the latest events at its second read, newest first, and from then on exactly the
  -- calls that the recorder knew at the first read count as seen, the ones that were not sent among
  -- them.
  pub poll_events-Polled :
      (seen : List String) (r r' : TraceRecorder)
      → Polled seen r r' (poll_events isoformat seen r r')
  unfolding poll_events
  poll_events-Polled seen r r' = send_new-Polled (unseen seen (known_call_ids r)) seen r r' refl

  abbrev pub NotSent : String → Option (List TraceDocument) → Type 0
  NotSent id none = Unit {0}
  NotSent id (some batch) = contains (ids_of batch) id ≡ false

  -- A call that is seen, or that is not among the latest ones, is not in the batch.
  Polled-NotSent :
      (id : String) (seen : List String) (r r' : TraceRecorder)
      (result : Option (List TraceDocument) × List String)
      → (contains (take 50 (known_call_ids r')) id ≡ false) ⊎ (contains seen id ≡ true)
      → Polled seen r r' result
      → NotSent id result.0
  Polled-NotSent id seen r r' result h (inl (_, e)) = subst (NotSent id) (ap (λ p. p.0) (sym e)) tt
  Polled-NotSent id seen r r' result h (inr (batch, _, e, ids)) =
      subst (NotSent id) (ap (λ p. p.0) (sym e)) (
        ap (λ l. contains l id) ids
        ∙ contains-keep (contains (unseen seen (known_call_ids r))) (take 50 (known_call_ids r')) id
        ∙ ap (λ b. contains (take 50 (known_call_ids r')) id && b)
            (contains-keep (λ a. not (contains seen a)) (known_call_ids r) id)
        ∙ outside (contains (take 50 (known_call_ids r')) id) (contains (known_call_ids r) id)
            (contains seen id) h)
    where
      outside :
          (late known told : Bool)
          → (late ≡ false) ⊎ (told ≡ true)
          → (late && (known && not told)) ≡ false
      outside late known told (inl h) = rw h refl
      outside late known told (inr h) =
          rw h (ap (λ b. late && b) (and-false known) ∙ and-false late)

  Polled-seen :
      (seen : List String) (r r' : TraceRecorder)
      (result : Option (List TraceDocument) × List String)
      → unseen seen (known_call_ids r) ≢ []
      → Polled seen r r' result
      → result.1 ≡ known_call_ids r
  Polled-seen seen r r' result h (inl (none_new, _)) = elim (h none_new) [ ]
  Polled-seen seen r r' result h (inr (_, _, e, _)) = ap (λ p. p.1) e

  -- A call that the recorder knows at the first read of a round that sends a batch, and that is not
  -- among the 50 calls with the latest events at the second read, is neither in that batch nor in what
  -- the next round sends, whatever the recorder has by then.
  pub poll_events-loses :
      (id : String) (seen : List String) (r r' later later' : TraceRecorder)
      → unseen seen (known_call_ids r) ≢ []
      → contains (known_call_ids r) id ≡ true
      → contains (take 50 (known_call_ids r')) id ≡ false
      → let first = poll_events isoformat seen r r' in
        NotSent id first.0 × NotSent id (poll_events isoformat first.1 later later').0
  poll_events-loses id seen r r' later later' h known beyond =
      let first = poll_events isoformat seen r r' in
      let told : contains first.1 id ≡ true =
        ap (λ l. contains l id) (Polled-seen seen r r' first h (poll_events-Polled seen r r'))
        ∙ known in
      (
        Polled-NotSent id seen r r' first (inl beyond) (poll_events-Polled seen r r'),
        Polled-NotSent id first.1 later later' (poll_events isoformat first.1 later later')
            (inr told) (poll_events-Polled first.1 later later'),
      )
