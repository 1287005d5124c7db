-- ===== src/RouteHeader/Entry.antt =====
-- The target of a Route entry without a user part and without a port.
use Prim.Native.Char.{Char, char, code}
use mathlib.Core.Bool.{true≢false}
use text.Mathlib.TextLemmas.{cons-append, nil-append, append_assoc}
use as_platform.Base.{
  ℕ, ◌<>◌, ◌≡◌, ◌≢◌, refl, sym, ap, ◌∙◌, true, false, String, List, [], ◌∷◌, Option, none, some,
  arith, ◌==◌, eqb, Bool-cases, inl, inr,
}
use as_platform.Base.Text.{
  strip, lstrip, rstrip, is_space, contains_code, match_letters, span_until,
}
use as_platform.Base.Text.Laws.{rstrip-append, free_of, span_until-append}
use as_platform.RouteHeader.{
  RouteBody, body_text, body_texts, route_header_values, split_commas, join_front, match_scheme,
  optional_s, target_at, after_user, host_at, port_at, match_entry, search_entry, user_stops,
  host_stops, parse_top_route_target, first_value, first_part, with_default,
}

abbrev pub comma : List ℕ
comma = 44 ∷ []

abbrev semicolon : Char
semicolon = char 59 tt

split_commas-single : (s : String) → free_of comma s ≡ true → split_commas s ≡ s ∷ []
unfolding split_commas free_of contains_code join_front
split_commas-single String.[] h = refl
split_commas-single (String.◌∷◌ c s) h = elim (Bool-cases (eqb (code c) 44)) [
  | inl e ↦ absurd (true≢false (sym h ∙ rw e refl))
  | inr e ↦ rw (e, split_commas-single s (sym (rw e refl) ∙ h)) refl
]

free_of-append :
    (stops : List ℕ) (u t : String)
    → free_of stops u ≡ true
    → free_of stops t ≡ true
    → free_of stops (u <> t) ≡ true
unfolding free_of
free_of-append stops String.[] t h k = ap (free_of stops) (nil-append t) ∙ k
free_of-append stops (String.◌∷◌ c u) t h k = elim (Bool-cases (contains_code stops (code c))) [
  | inl d ↦ absurd (true≢false (sym h ∙ rw d refl))
  | inr d ↦
      ap (free_of stops) (cons-append c u t)
      ∙ rw (d, free_of-append stops u t (sym (rw d refl) ∙ h) k) refl
]

-- What stops neither a host nor a list stops no user part.
free_of-user : (u : String) → free_of host_stops u ≡ true → free_of user_stops u ≡ true
unfolding free_of contains_code
free_of-user String.[] h = refl
free_of-user (String.◌∷◌ c u) h = ground (arith, free_of-user u)

front_lem :
    (t : String)
    → "<sip:" <> t
      ≡ String.◌∷◌ (char 60 tt) (
          String.◌∷◌
            (char 115 tt)
            (String.◌∷◌ (char 105 tt) (String.◌∷◌ (char 112 tt) (String.◌∷◌ (char 58 tt) t))))
front_lem t =
    cons-append (char 60 tt) "sip:" t
    ∙ ap (String.◌∷◌ (char 60 tt)) (
        cons-append (char 115 tt) "ip:" t
        ∙ ap (String.◌∷◌ (char 115 tt)) (
            cons-append (char 105 tt) "p:" t
            ∙ ap (String.◌∷◌ (char 105 tt)) (
                cons-append (char 112 tt) ":" t
                ∙ ap (String.◌∷◌ (char 112 tt))
                    (cons-append (char 58 tt) "" t ∙ ap (String.◌∷◌ (char 58 tt)) (nil-append t)))))

abbrev pub entry : String → String → String
entry host params = "<sip:" <> (host <> String.◌∷◌ semicolon params)

strip-entry : (host params : String) → strip (entry host params) ≡ entry host (rstrip params)
unfolding strip lstrip is_space
strip-entry host params =
    ap strip (front_lem (host <> String.◌∷◌ semicolon params))
    ∙ ap rstrip (sym (front_lem (host <> String.◌∷◌ semicolon params)))
    ∙ ap rstrip (sym (append_assoc "<sip:" host _))
    ∙ rstrip-append ("<sip:" <> host) semicolon params refl
    ∙ append_assoc "<sip:" host _

no_comma :
    (host params : String)
    → free_of comma host ≡ true
    → free_of comma params ≡ true
    → free_of comma (entry host params) ≡ true
unfolding free_of contains_code
no_comma host params h p =
    free_of-append comma "<sip:" (host <> String.◌∷◌ semicolon params) refl
      (free_of-append comma host (String.◌∷◌ semicolon params) h p)

module _ (decimal : Char → Option ℕ) where
  -- `target_at`, from the two fronts.
  abbrev from_fronts : String × String → String × String → Option (String × Option ℕ)
  from_fronts user host = elim (after_user user) [
    | none ↦ host_at decimal host
    | some rest ↦ elim (host_at decimal (span_until host_stops rest)) [
      | some target ↦ some target
      | none ↦ host_at decimal host
    ]
  ]

  after_no_user : (host q : String) → after_user (host, String.◌∷◌ semicolon q) ≡ none
  unfolding after_user match_letters contains_code
  after_no_user host q = elim (Bool-cases (host == "")) [ inl e ↦ rw e refl | inr e ↦ rw e refl ]

  host_at-host :
      (host q : String)
      → host ≢ ""
      → host_at decimal (host, String.◌∷◌ semicolon q) ≡ some (host, none)
  unfolding host_at port_at match_letters contains_code
  host_at-host host q h = let e : (host == "") ≡ false = ground arith in rw e refl

  target_at-host :
      (host q : String)
      → free_of host_stops host ≡ true
      → host ≢ ""
      → target_at decimal (host <> String.◌∷◌ semicolon q) ≡ some (host, none)
  unfolding target_at
  target_at-host host q h some_host =
      (λ i.
        from_fronts (span_until-append user_stops host semicolon q (free_of-user host h) refl i)
          (span_until-append host_stops host semicolon q h refl i))
      ∙ rw (from_fronts, after_no_user host q) (host_at-host host q some_host)

  search_entry-entry :
      (host q : String)
      → free_of host_stops host ≡ true
      → host ≢ ""
      → search_entry decimal (entry host q) ≡ some (host, none)
  unfolding search_entry match_entry match_scheme match_letters contains_code lstrip is_space
      optional_s
  search_entry-entry host q h some_host =
      ap (search_entry decimal) (front_lem (host <> String.◌∷◌ semicolon q))
      ∙ rw (search_entry, match_entry, target_at-host host q h some_host) refl

  -- The first Route body, when it reads as one entry `<sip:host;params`: the target is its host with
  -- the default port, whatever the other bodies are. The host is not empty, none of its characters ends a
  -- host, and neither it nor the parameters have a comma.
  pub parse_top_route_target-entry :
      (host params : String) (body : RouteBody) (bodies : List RouteBody) (default_port : ℕ)
      → body_text body ≡ entry host params
      → free_of host_stops host ≡ true
      → host ≢ ""
      → free_of comma host ≡ true
      → free_of comma params ≡ true
      → parse_top_route_target decimal (some (some (body ∷ bodies))) default_port
        ≡ some (host, default_port)
  unfolding parse_top_route_target route_header_values body_texts first_value first_part
      with_default
  parse_top_route_target-entry host params body bodies default_port reads h some_host hc pc =
      let found : search_entry decimal (strip (entry host params)) ≡ some (host, none) =
        ap (search_entry decimal) (strip-entry host params)
        ∙ search_entry-entry host (rstrip params) h some_host in
      rw
        (
          parse_top_route_target,
          first_value,
          reads,
          split_commas-single (entry host params) (no_comma host params hc pc),
          first_part,
          found,
        )
        refl
