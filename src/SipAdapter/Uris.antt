-- ===== src/SipAdapter/Uris.antt =====
-- The Request-URI that is built names the number that it is read back as.
use Prim.Native.Char.{Char, char}
use text.Mathlib.TextLemmas.{
  cons-append, nil-append, append_assoc, append_cancel_right, length-append,
}
use Prim.Native.String.{count}
use as_platform.Base.{
  ℕ, ◌<>◌, ◌≡◌, ◌≢◌, refl, sym, ap, ◌∙◌, Bool, true, false, ◌&&◌, not, String, Option, none, some,
  arith, if◌then◌else◌, str_dec, if_neg, Bool-cases, inl, inr,
}
use mathlib.Core.Bool.{true≢false}
use as_platform.Base.Text.{is_space, lstrip, rstrip, strip, str}
use as_platform.Base.Text.Laws.{rstrip-append}
use as_platform.World.{NextHop}
use as_platform.SipAdapter.{
  is_delimiter, span_user, user_of, match_user, scheme, expect, after, optional, uri_host,
  build_request_uri, extract_called_number, number, outbound_call_id, b2bua_call_id_suffix,
}

-- No character of the text ends a user part.
unfoldable pub is_user : String → Bool
is_user String.[] = true
is_user (String.◌∷◌ c s) = not (is_delimiter c) && is_user s

abbrev at_sign : Char
at_sign = char 64 tt

span_user-append :
    (u t : String)
    → is_user u ≡ true
    → span_user (u <> String.◌∷◌ at_sign t) ≡ (u, String.◌∷◌ at_sign t)
unfolding span_user is_user is_delimiter
span_user-append String.[] t h = ap span_user (nil-append (String.◌∷◌ at_sign t))
span_user-append (String.◌∷◌ x u) t h = elim (Bool-cases (is_delimiter x)) [
  | inl d ↦ absurd (true≢false (sym h ∙ rw d refl))
  | inr d ↦
      let rest : is_user u ≡ true = sym (rw d refl) ∙ h in
      ap span_user (cons-append x u (String.◌∷◌ at_sign t)) ∙ rw (span_user-append u t rest, d) refl
]

-- The front of the URI, by its characters.
sip_lem :
    (t : String)
    → "sip:" <> t
      ≡ String.◌∷◌
          (char 115 tt)
          (String.◌∷◌ (char 105 tt) (String.◌∷◌ (char 112 tt) (String.◌∷◌ (char 58 tt) t)))
sip_lem t =
    cons-append (char 115 tt) "ip:" t
    ∙ ap (String.◌∷◌ (char 115 tt)) (
        cons-append (char 105 tt) "p:" t
        ∙ ap (String.◌∷◌ (char 105 tt)) (
            cons-append (char 112 tt) ":" t
            ∙ ap (String.◌∷◌ (char 112 tt))
                (cons-append (char 58 tt) "" t ∙ ap (String.◌∷◌ (char 58 tt)) (nil-append t))))

at_lem : (t : String) → "@" <> t ≡ String.◌∷◌ at_sign t
at_lem t = cons-append at_sign "" t ∙ ap (String.◌∷◌ at_sign) (nil-append t)

scheme-sip : (t : String) → scheme ("sip:" <> t) ≡ some t
unfolding scheme expect after optional
scheme-sip t = ap scheme (sip_lem t)

-- White space at the end is after the `@`; there is none at the front.
strip-uri :
    (u t : String)
    → strip ("sip:" <> (u <> ("@" <> t))) ≡ "sip:" <> (u <> String.◌∷◌ at_sign (rstrip t))
unfolding strip lstrip is_space
strip-uri u t =
    ap strip (sip_lem (u <> ("@" <> t)))
    ∙ ap rstrip (sym (sip_lem (u <> ("@" <> t))))
    ∙ ap (λ x. rstrip ("sip:" <> (u <> x))) (at_lem t)
    ∙ ap rstrip (sym (append_assoc "sip:" u _))
    ∙ rstrip-append ("sip:" <> u) at_sign t refl
    ∙ append_assoc "sip:" u _

match_user-sip :
    (u t : String)
    → is_user u ≡ true
    → u ≢ ""
    → match_user ("sip:" <> (u <> String.◌∷◌ at_sign t)) ≡ some u
unfolding match_user user_of expect
match_user-sip u t h some_user =
    ap (λ (o : Option String). elim o [ none ↦ none | some rest ↦ user_of (span_user rest) ])
      (scheme-sip (u <> String.◌∷◌ at_sign t))
    ∙ ap user_of (span_user-append u t h)
    ∙ ap (λ (b : Bool). if b then none else some u) (if_neg (str_dec u "") some_user true false)

-- The number that a built Request-URI is read back as is the number that it was built for, when that
-- is not empty and none of its characters ends a user part, whatever the next hop is, an IPv6
-- literal included, and whatever white space its transport ends with.
pub extract_called_number-build_request_uri :
    (repr : String → String) (ip_version : String → Option ℕ) (called : String) (hop : NextHop)
    → is_user called ≡ true
    → called ≢ ""
    → extract_called_number repr (build_request_uri ip_version called hop) ≡ number called
unfolding extract_called_number build_request_uri
extract_called_number-build_request_uri repr ip_version called hop h some_user =
    let tail =
      uri_host ip_version hop <> (":" <> (str hop.port <> (";transport=" <> hop.transport))) in
    let found : match_user (strip ("sip:" <> (called <> ("@" <> tail)))) ≡ some called =
      ap match_user (strip-uri called tail) ∙ match_user-sip called (rstrip tail) h some_user in
    rw (found, extract_called_number) refl

-- The Call-IDs of the two legs of a call differ, and those of two calls stay apart.
outbound_call_id_lem :
    (a b : String) → (outbound_call_id a ≢ a) × (outbound_call_id a ≡ outbound_call_id b → a ≡ b)
unfolding outbound_call_id
outbound_call_id_lem a b = (
  λ e. omega (arith, length-append a b2bua_call_id_suffix, ap count e),
  append_cancel_right a b b2bua_call_id_suffix,
)
