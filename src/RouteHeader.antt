-- ===== src/RouteHeader.antt =====
-- route_header.py: the host and the port of the top Route entry. The Route header values of a request
-- are sippy's, a parameter; so is the decimal value of a character, if it has one, which is for
-- Python's Unicode tables.
pub mod Entry
use Prim.Native.Char.{Char, code}
use as_platform.Base.{
  ℕ, ◌+◌, ◌*◌, Bool, String, List, [], ◌∷◌, Option, none, some, eqb, if◌then◌else◌, ◌==◌,
}
use as_platform.Base.Text.{strip, lstrip, match_letters, span_until}

-- `text.split(",")`
unfoldable pub join_front : Char → List String → List String
join_front c [] = String.◌∷◌ c "" ∷ []
join_front c (part ∷ parts) = String.◌∷◌ c part ∷ parts

unfoldable pub split_commas : String → List String
unfolding join_front
split_commas String.[] = "" ∷ []
split_commas (String.◌∷◌ c s) =
    let rest = split_commas s in if eqb (code c) 44 then "" ∷ rest else join_front c rest

abbrev opening : List (List ℕ)
opening = (60 ∷ []) ∷ []

-- `sip`, ignoring case, with the letters that Python's Unicode tables add.
abbrev sip_letters : List (List ℕ)
sip_letters = (83 ∷ 115 ∷ 383 ∷ []) ∷ (73 ∷ 105 ∷ 304 ∷ 305 ∷ []) ∷ (80 ∷ 112 ∷ []) ∷ []

-- `s?`
unfoldable pub optional_s : String → String
unfolding match_letters
optional_s s = elim (match_letters ((83 ∷ 115 ∷ 383 ∷ []) ∷ []) s) [ none ↦ s | some rest ↦ rest ]

-- `<\s*sips?:`
unfoldable pub match_scheme : String → Option String
unfolding match_letters lstrip optional_s
match_scheme s = elim (match_letters opening s) [
  | none ↦ none
  | some inside ↦ elim (match_letters sip_letters (lstrip inside)) [
    | none ↦ none
    | some rest ↦ match_letters ((58 ∷ []) ∷ []) (optional_s rest)
  ]
]

abbrev pub user_stops : List ℕ
user_stops = 60 ∷ 62 ∷ 64 ∷ 59 ∷ []

abbrev pub host_stops : List ℕ
host_stops = 60 ∷ 62 ∷ 64 ∷ 58 ∷ 59 ∷ []

-- `([^<>@;]+@)`
unfoldable pub after_user : String × String → Option String
unfolding match_letters
after_user (user, rest) = if user == "" then none else match_letters ((64 ∷ []) ∷ []) rest

-- A body of a Route header, as `getCopy` gives it, if it has that, or as it is, in writing.
pub data RouteBody : Type 0 where
  copied printed : String → RouteBody

unfoldable pub body_text : RouteBody → String
body_text (copied text) = text
body_text (printed text) = text

unfoldable body_texts : List RouteBody → List String
unfolding body_text
body_texts [] = []
body_texts (body ∷ bodies) = body_text body ∷ body_texts bodies

-- `getHFBodys("route")`, if the request has that method.
unfoldable pub route_header_values : Option (List RouteBody) → List String
unfolding body_texts
route_header_values none = []
route_header_values (some bodies) = body_texts bodies

module _ (decimal : Char → Option ℕ) where
  -- `\d+` with its value, from the value of the digits before.
  unfoldable digits_value : ℕ → String → ℕ
  digits_value n String.[] = n
  digits_value n (String.◌∷◌ c s) = elim (decimal c) [
    | none ↦ n
    | some d ↦ digits_value (n * 10 + d) s
  ]

  unfoldable number_at : String → Option ℕ
  unfolding digits_value
  number_at String.[] = none
  number_at (String.◌∷◌ c s) = elim (decimal c) [ none ↦ none | some d ↦ some (digits_value d s) ]

  -- `(?::(\d+))?`
  unfoldable pub port_at : String → Option ℕ
  unfolding match_letters number_at
  port_at rest = elim (match_letters ((58 ∷ []) ∷ []) rest) [
    | none ↦ none
    | some digits ↦ number_at digits
  ]

  unfoldable pub host_at : String × String → Option (String × Option ℕ)
  unfolding port_at
  host_at (host, rest) = if host == "" then none else some (host, port_at rest)

  -- The user part is given up if no host follows it.
  unfoldable pub target_at : String → Option (String × Option ℕ)
  unfolding after_user host_at span_until
  target_at s = elim (after_user (span_until user_stops s)) [
    | none ↦ host_at (span_until host_stops s)
    | some rest ↦ elim (host_at (span_until host_stops rest)) [
      | some target ↦ some target
      | none ↦ host_at (span_until host_stops s)
    ]
  ]

  -- `_ROUTE_ENTRY` at this place
  unfoldable pub match_entry : String → Option (String × Option ℕ)
  unfolding match_scheme target_at
  match_entry s = elim (match_scheme s) [ none ↦ none | some rest ↦ target_at rest ]

  -- `_ROUTE_ENTRY.search(…)`
  unfoldable pub search_entry : String → Option (String × Option ℕ)
  unfolding match_entry
  search_entry String.[] = none
  search_entry (String.◌∷◌ c s) =
      let rest = search_entry s in
      elim (match_entry (String.◌∷◌ c s)) [ some target ↦ some target | none ↦ rest ]

  -- `int(port_text) if port_text else default_port`
  unfoldable pub with_default : ℕ → String × Option ℕ → String × ℕ
  with_default default_port (host, none) = (host, default_port)
  with_default default_port (host, some port) = (host, port)

  unfoldable pub first_part : ℕ → List String → Option (String × ℕ)
  unfolding search_entry with_default
  first_part default_port [] = none
  first_part default_port (part ∷ parts) =
      let rest = first_part default_port parts in
      elim (search_entry (strip part)) [
        | none ↦ rest
        | some target ↦ some (with_default default_port target)
      ]

  unfoldable pub first_value : ℕ → List String → Option (String × ℕ)
  unfolding first_part split_commas
  first_value default_port [] = none
  first_value default_port (raw ∷ values) =
      let rest = first_value default_port values in
      elim (first_part default_port (split_commas raw)) [ none ↦ rest | some target ↦ some target ]

  -- The request is absent, or it has these bodies.
  unfoldable pub parse_top_route_target : Option (Option (List RouteBody)) → ℕ → Option (String × ℕ)
  unfolding first_value route_header_values
  parse_top_route_target none default_port = none
  parse_top_route_target (some bodies) default_port =
      first_value default_port (route_header_values bodies)
