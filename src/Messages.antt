-- ===== src/Messages.antt =====
-- observability/tracing.py, `SipMessageRecorder`: the capture of the messages that sippy writes, and
-- the two regular expressions that read their prefix and their text. Which characters are decimal
-- digits is for Python's Unicode tables, a parameter.
pub mod Capture
use Prim.Native.Char.{Char, code}
use as_platform.Base.{
  ℕ, ◌<>◌, Bool, true, false, String, List, [], ◌∷◌, ◌++◌, Option, none, some, eqb, if◌then◌else◌,
  ◌==◌, keep, contains, pop_front, startswith,
}
use as_platform.Base.Text.{match_letters, is_space, contains_code}

pub record RecordedSipMessage : Type 0 where
  pub direction : String
  pub peer : String
  pub text : String
  pub call_id : String

pub record SipMessageRecorder : Type 0 where
  pub max_messages : ℕ
  pub messages : List RecordedSipMessage

unfoldable pub new_messages : ℕ → SipMessageRecorder
new_messages max_messages = record { max_messages = max_messages; messages = [] }

-- `Call-ID:`, ignoring case, with the two dotted and dotless letters that Python adds to the `i`.
abbrev call_id_header : List (List ℕ)
call_id_header =
    (67 ∷ 99 ∷ [])
    ∷ (65 ∷ 97 ∷ [])
    ∷ (76 ∷ 108 ∷ [])
    ∷ (76 ∷ 108 ∷ [])
    ∷ (45 ∷ [])
    ∷ (73 ∷ 105 ∷ 304 ∷ 305 ∷ [])
    ∷ (68 ∷ 100 ∷ [])
    ∷ (58 ∷ [])
    ∷ []

-- What is left behind the characters of a class.
unfoldable skip : List ℕ → String → String
unfolding contains_code
skip chars String.[] = ""
skip chars (String.◌∷◌ c s) =
    let rest = skip chars s in if contains_code chars (code c) then rest else String.◌∷◌ c s

-- `\S+`, and what comes after it.
unfoldable span_word : String → String × String
unfolding is_space
span_word String.[] = ("", "")
span_word (String.◌∷◌ c s) =
    let (word, rest) = span_word s in
    if is_space c then ("", String.◌∷◌ c s) else (String.◌∷◌ c word, rest)

-- `$` between lines
unfoldable at_line_end : String → Bool
at_line_end String.[] = true
at_line_end (String.◌∷◌ c s) = eqb (code c) 10

unfoldable value_in : String × String → Option String
unfolding skip at_line_end
value_in (word, rest) =
    if word == ""
    then none
    else if at_line_end (skip (32 ∷ 9 ∷ 13 ∷ []) rest)
    then some word
    else none

-- The pattern at the start of a line.
unfoldable header_value : String → Option String
unfolding match_letters span_word value_in
header_value line = elim (match_letters call_id_header line) [
  | none ↦ none
  | some rest ↦ value_in (span_word (skip (32 ∷ 9 ∷ []) rest))
]

-- `_CALL_ID_IN_MESSAGE.search(text)`, from a place that starts a line or does not.
unfoldable search_call_id : Bool → String → Option String
unfolding header_value
search_call_id starts String.[] = none
search_call_id starts (String.◌∷◌ c s) =
    let rest = search_call_id (eqb (code c) 10) s in
    if starts
    then (elim (header_value (String.◌∷◌ c s)) [ some v ↦ some v | none ↦ rest ])
    else rest

-- `_call_id_of`
unfoldable pub call_id_of : String → String
unfolding search_call_id
call_id_of text = elim (search_call_id true text) [ none ↦ "-" | some v ↦ v ]

-- `text.removeprefix(…)`
unfoldable drop_prefix : List (List ℕ) → String → String
unfolding match_letters
drop_prefix letters s = elim (match_letters letters s) [ none ↦ s | some rest ↦ rest ]

-- `text.removesuffix("]")`
unfoldable drop_bracket : String → String
drop_bracket String.[] = ""
drop_bracket (String.◌∷◌ c String.[]) = if eqb (code c) 93 then "" else String.◌∷◌ c ""
drop_bracket (String.◌∷◌ c (String.◌∷◌ d s)) = String.◌∷◌ c (drop_bracket (String.◌∷◌ d s))

module _ (is_digit : Char → Bool) where
  -- `\d*`
  unfoldable span_digits : String → String
  span_digits String.[] = ""
  span_digits (String.◌∷◌ c s) =
      let rest = span_digits s in if is_digit c then String.◌∷◌ c rest else ""

  -- `:(\d+)`
  unfoldable port_after : String → Option String
  unfolding span_digits
  port_after String.[] = none
  port_after (String.◌∷◌ c s) =
      if eqb (code c) 58 then (if span_digits s == "" then none else some (span_digits s)) else none

  -- `(\S+):(\d+)` from this place on: the longest first group.
  unfoldable match_peer : String → Option (String × String)
  unfolding is_space port_after
  match_peer String.[] = none
  match_peer (String.◌∷◌ c s) =
      let longer = match_peer s in
      if is_space c then none else elim longer [
        | some (address, port) ↦ some (String.◌∷◌ c address, port)
        | none ↦ elim (port_after s) [ none ↦ none | some port ↦ some (String.◌∷◌ c "", port) ]
      ]

  unfoldable search_peer : String → Option (String × String)
  unfolding match_peer
  search_peer String.[] = none
  search_peer (String.◌∷◌ c s) =
      let rest = search_peer s in
      elim (match_peer (String.◌∷◌ c s)) [ some m ↦ some m | none ↦ rest ]

  -- `_peer_from_prefix`, with `udp:` and the brackets of an IPv6 address taken off.
  unfoldable pub peer_from_prefix : String → String
  unfolding search_peer drop_prefix drop_bracket
  peer_from_prefix prefix = elim (search_peer prefix) [
    | none ↦ "-"
    | some (address, port) ↦
        drop_bracket (
          drop_prefix ((91 ∷ []) ∷ [])
            (drop_prefix ((117 ∷ []) ∷ (100 ∷ []) ∷ (112 ∷ []) ∷ (58 ∷ []) ∷ []) address))
        <> (":" <> port)
  ]

  -- The message that `write` builds.
  unfoldable pub recorded : String → String → RecordedSipMessage
  unfolding peer_from_prefix call_id_of
  recorded prefix text = record {
    direction = if startswith prefix "RECEIVED" then "in" else "out";
    peer = peer_from_prefix prefix;
    text = text;
    call_id = call_id_of text;
  }

  unfoldable pub write : String → String → SipMessageRecorder → SipMessageRecorder
  unfolding recorded pop_front
  write prefix text r = record r {
    messages = pop_front r.max_messages (r.messages ++ recorded prefix text ∷ []);
  }

unfoldable pub clear : SipMessageRecorder → SipMessageRecorder
clear r = record r { messages = [] }

-- `DualSipLogger.write`: the logger of the process, which is sippy's, and the recorder.
unfoldable pub dual_write :
    {P : Type 0}
    → (Char → Bool)
    → (String → String → P → P)
    → String
    → String
    → P × SipMessageRecorder
    → P × SipMessageRecorder
unfolding write
dual_write is_digit primary_write prefix text (primary, r) =
    (primary_write prefix text primary, write is_digit prefix text r)

unfoldable pub messages_for_any : List String → SipMessageRecorder → List RecordedSipMessage
unfolding contains
messages_for_any call_ids r = keep (λ m. contains call_ids m.call_id) r.messages
