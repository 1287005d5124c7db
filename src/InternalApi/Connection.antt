-- ===== src/InternalApi/Connection.antt =====
-- internal_api.py, `ws_events`: a whole connection of the console, from its accept over its polls. What
-- the trace recorder holds at the two reads of each poll is an argument.
use as_platform.Base.{
  ℕ, ◌+◌, ◌≤◌, ◌≡◌, inl, inr, refl, sym, ap, subst, ◌∙◌, Bool, true, false, not, ◌&&◌, ◌||◌, String,
  List, [], ◌∷◌, Option, none, some, length, take-fits, contains, keep, if◌then◌else◌, arith,
}
use as_platform.Tracing.{TraceRecorder, known_call_ids}
use as_platform.InternalApi.{TraceDocument, poll_events}
use as_platform.InternalApi.Feed.{Polled, ids_of, unseen, contains-keep, poll_events-Polled}

seen-known :
    (seen known : Bool) → (seen ≡ true → known ≡ true) → (known && not seen) ≡ false → seen ≡ known
seen-known true known kept h = sym (kept refl)
seen-known false true kept h = sym h
seen-known false false kept h = refl

poll_sum :
    (seen known later : Bool)
    → (seen ≡ true → known ≡ true)
    → (if known && not seen then 1 else 0) + (if known then 0 else if later then 1 else 0)
      ≡ (if seen then 0 else if known || later then 1 else 0)
poll_sum true known later kept = rw (kept refl) (omega arith)
poll_sum false true later kept = omega arith
poll_sum false false later kept = ground arith

-- Whether a poll sends a call.
abbrev pub sends : String → Option (List TraceDocument) → Bool
sends id none = false
sends id (some batch) = contains (ids_of batch) id

-- In how many of the polls a call is sent.
abbrev pub times_sent : String → List (Option (List TraceDocument)) → ℕ
times_sent id [] = 0
times_sent id (sent ∷ rest) = (if sends id sent then 1 else 0) + times_sent id rest

-- What the two reads of a poll find.
abbrev pub Reads : Type 0
Reads = TraceRecorder × TraceRecorder

-- Whether the recorder knows a call at the first read of one of the polls.
abbrev pub known_at : String → List Reads → Bool
known_at id [] = false
known_at id ((r, r') ∷ polls) = contains (known_call_ids r) id || known_at id polls

-- Each poll finds at most 50 calls at its second read, and this one, at either read, if it was known
-- before.
abbrev pub Kept : String → Bool → List Reads → Type 0
Kept id before [] = Unit
Kept id before ((r, r') ∷ polls) =
    (length (known_call_ids r') ≤ 50)
    × (before ≡ true → contains (known_call_ids r) id ≡ true)
    × (contains (known_call_ids r) id ≡ true → contains (known_call_ids r') id ≡ true)
    × Kept id (contains (known_call_ids r) id) polls

module _ (isoformat : ℕ → String) where
  -- `while True: …`, with what each poll sends.
  unfoldable poll_loop : List String → List Reads → List (Option (List TraceDocument))
  unfolding poll_events
  poll_loop seen [] = []
  poll_loop seen ((r, r') ∷ polls) =
      let (sent, seen') = poll_events isoformat seen r r' in sent ∷ poll_loop seen' polls

  -- `ws_events`, on the recorder at the accept and at the polls until the console disconnects.
  unfoldable pub ws_events : TraceRecorder → List Reads → List (Option (List TraceDocument))
  unfolding poll_loop known_call_ids
  ws_events accepted polls = poll_loop (known_call_ids accepted) polls

  -- What a poll does for one call.
  abbrev Told :
      String → List String → TraceRecorder → Option (List TraceDocument) × List String → Type 0
  Told id seen r result =
      (sends id result.0 ≡ (contains (known_call_ids r) id && not (contains seen id)))
      × (contains result.1 id ≡ (contains (known_call_ids r) id))

  Polled-Told :
      (id : String) (seen : List String) (r r' : TraceRecorder)
      (result : Option (List TraceDocument) × List String)
      → length (known_call_ids r') ≤ 50
      → (contains seen id ≡ true → contains (known_call_ids r) id ≡ true)
      → (contains (known_call_ids r) id ≡ true → contains (known_call_ids r') id ≡ true)
      → Polled isoformat seen r r' result
      → Told id seen r result
  Polled-Told id seen r r' result few kept again (inl (none_new, e)) =
      let known = known_call_ids r in
      let gone : (contains known id && not (contains seen id)) ≡ false =
        sym (contains-keep (λ a. not (contains seen a)) known id)
        ∙ ap (λ l. contains l id) none_new
        ∙ unfold contains in refl in
      subst (Told id seen r) (sym e)
        (sym gone, seen-known (contains seen id) (contains known id) kept gone)
  Polled-Told id seen r r' result few kept again (inr (batch, _, e, ids)) =
      let known = known_call_ids r in
      subst (Told id seen r) (sym e) (
        ap (λ l. contains l id) ids
            ∙ ap (λ l. contains (keep (contains (unseen seen known)) l) id)
                (take-fits 50 (known_call_ids r') few)
            ∙ contains-keep (contains (unseen seen known)) (known_call_ids r') id
            ∙ ap (λ b. contains (known_call_ids r') id && b)
                (contains-keep (λ a. not (contains seen a)) known id)
            ∙ still_there (contains known id) (contains (known_call_ids r') id)
                (not (contains seen id)) again,
        refl,
      )
    where
      still_there :
          (known later new : Bool)
          → (known ≡ true → later ≡ true)
          → (later && (known && new)) ≡ (known && new)
      still_there true later new h = rw (h refl) refl
      still_there false true new h = refl
      still_there false false new h = refl

  poll_loop-sends :
      (id : String) (polls : List Reads) (seen : List String)
      → Kept id (contains seen id) polls
      → times_sent id (poll_loop seen polls)
        ≡ (if contains seen id then 0 else if known_at id polls then 1 else 0)
  unfolding poll_loop
  poll_loop-sends id [] seen h = ground arith
  poll_loop-sends id ((r, r') ∷ polls) seen h =
      let result = poll_events isoformat seen r r' in
      let told =
        Polled-Told id seen r r' result h.0 h.1 h.2 (poll_events-Polled isoformat seen r r') in
      let rest =
        poll_loop-sends id polls result.1 (subst (λ b. Kept id b polls) (sym told.1) h.3) in
      rw (told.0, rest, told.1)
        (poll_sum (contains seen id) (contains (known_call_ids r) id) (known_at id polls) h.1)

  -- Over a whole connection, while each poll finds at most 50 calls at its second read of the recorder,
  -- and finds this call at both of its reads once it was known: a call that the recorder knew at the
  -- accept is sent by no poll, a call that it knows at the first read of some poll for the first time
  -- is sent by exactly one, and any other by none.
  pub ws_events-once :
      (id : String) (accepted : TraceRecorder) (polls : List Reads)
      → Kept id (contains (known_call_ids accepted) id) polls
      → times_sent id (ws_events accepted polls)
        ≡ (if contains (known_call_ids accepted) id then 0 else if known_at id polls then 1 else 0)
  unfolding ws_events
  ws_events-once id accepted polls h = poll_loop-sends id polls (known_call_ids accepted) h
