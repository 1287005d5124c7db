-- ===== src/Messages/Capture.antt =====
-- What the recorder of SIP messages keeps, and what it returns for the two legs of a call.
use Prim.Native.Char.{Char}
use mathlib.Core.List.{append_assoc, append-nil}
use as_platform.Base.{
  ℕ, ◌-◌, ◌≡◌, refl, sym, ap, ◌∙◌, Bool, String, List, [], ◌∷◌, ◌++◌, length, drop, keep, contains,
  pop_front, pop_front_lem, pop_front-append, pop_front-fits, length-pop_front-le, ◌≤◌, arith,
}
use as_platform.Messages.{
  RecordedSipMessage, SipMessageRecorder, new_messages, recorded, write, messages_for_any,
}

module _ (is_digit : Char → Bool) where
  -- Messages written one after the other, each with its prefix.
  unfoldable pub writes : List (String × String) → SipMessageRecorder → SipMessageRecorder
  unfolding write
  writes [] r = r
  writes ((prefix, text) ∷ rest) r = writes rest (write is_digit prefix text r)

  -- The messages of a history.
  abbrev pub history : List (String × String) → List RecordedSipMessage
  history [] = []
  history ((prefix, text) ∷ rest) = recorded is_digit prefix text ∷ history rest

  writes-from :
      (ws : List (String × String)) (n : ℕ) (ms : List RecordedSipMessage)
      → pop_front n (writes ws (record { max_messages = n; messages = ms })).messages
        ≡ pop_front n (ms ++ history ws)
  unfolding writes write
  writes-from [] n ms = rw append-nil refl
  writes-from ((prefix, text) ∷ ws) n ms =
      writes-from ws n (pop_front n (ms ++ recorded is_digit prefix text ∷ []))
      ∙ pop_front-append n (ms ++ recorded is_digit prefix text ∷ []) (history ws)
      ∙ ap (pop_front n) (append_assoc ms (recorded is_digit prefix text ∷ []) (history ws))

  writes-bound :
      (ws : List (String × String)) (r : SipMessageRecorder)
      → length r.messages ≤ r.max_messages
      → length (writes ws r).messages ≤ r.max_messages
  unfolding writes write
  writes-bound [] r h = h
  writes-bound ((prefix, text) ∷ ws) r h =
      writes-bound ws (write is_digit prefix text r) (length-pop_front-le r.max_messages _)

  -- After any history of messages, a new recorder holds the last of them, as many as it keeps, in
  -- the order in which they were written; what it returns for a set of Call-IDs are those among them
  -- with one of these Call-IDs, in the same order.
  pub messages_for_any-writes :
      (ids : List String) (ws : List (String × String)) (n : ℕ)
      → let kept = drop (length (history ws) - n) (history ws) in
        ((writes ws (new_messages n)).messages ≡ kept)
        × (messages_for_any ids (writes ws (new_messages n))
            ≡ keep (λ m. contains ids m.call_id) kept)
  unfolding messages_for_any new_messages
  messages_for_any-writes ids ws n =
      let r = writes ws (new_messages n) in
      let held : r.messages ≡ drop (length (history ws) - n) (history ws) =
        sym (pop_front-fits n r.messages (writes-bound ws (new_messages n) (omega arith)))
        ∙ writes-from ws n []
        ∙ pop_front_lem n (history ws) in
      (held, ap (keep (λ m. contains ids m.call_id)) held)
