-- ===== src/Base/Text/Laws.antt =====
-- What `strip` leaves of a text, and the longest fronts of concatenated texts.
use Prim.Native.Nat.{ℕ, zero, suc, ◌<◌, ◌/◌}
use native.Mathlib.Omega.{arith}
use Prim.Native.Char.{Char, code}
use Prim.Native.String.{String, ◌++◌ as ◌<>◌}
use mathlib.Core.Path.{◌≡◌, refl, sym, ap, ◌∙◌}
use mathlib.Core.Logic.{inl, inr}
use mathlib.Core.Bool.{Bool, true, false, not, ◌&&◌, true≢false}
use mathlib.Core.List.{List}
use text.Mathlib.TextLemmas.{cons-append, nil-append}
use as_platform.Base.Tests.{Bool-cases, ltb}
use as_platform.Base.Text.{show_digits, str, is_space, put_front, rstrip, contains_code, span_until}

put_front-append :
    (d c : Char) (u t : String)
    → put_front d (u <> String.◌∷◌ c t) ≡ String.◌∷◌ d (u <> String.◌∷◌ c t)
unfolding put_front
put_front-append d c String.[] t = rw (nil-append (String.◌∷◌ c t)) refl
put_front-append d c (String.◌∷◌ x u) t = rw (cons-append x u (String.◌∷◌ c t)) refl

put_front_keep : (c : Char) (t : String) → is_space c ≡ false → put_front c t ≡ String.◌∷◌ c t
unfolding put_front
put_front_keep c String.[] h = rw h refl
put_front_keep c (String.◌∷◌ x t) h = refl

-- What comes before a character that is not white space stays.
pub rstrip-append :
    (u : String) (c : Char) (t : String)
    → is_space c ≡ false
    → rstrip (u <> String.◌∷◌ c t) ≡ u <> String.◌∷◌ c (rstrip t)
unfolding rstrip
rstrip-append String.[] c t h =
    ap rstrip (nil-append (String.◌∷◌ c t))
    ∙ put_front_keep c (rstrip t) h
    ∙ sym (nil-append (String.◌∷◌ c (rstrip t)))
rstrip-append (String.◌∷◌ x u) c t h =
    ap rstrip (cons-append x u (String.◌∷◌ c t))
    ∙ ap (put_front x) (rstrip-append u c t h)
    ∙ put_front-append x c u (rstrip t)
    ∙ sym (cons-append x u (String.◌∷◌ c (rstrip t)))

-- No character of the text is one of these.
unfoldable pub free_of : List ℕ → String → Bool
free_of stops String.[] = true
free_of stops (String.◌∷◌ c s) = not (contains_code stops (code c)) && free_of stops s

pub span_until-append :
    (stops : List ℕ) (u : String) (c : Char) (t : String)
    → free_of stops u ≡ true
    → contains_code stops (code c) ≡ true
    → span_until stops (u <> String.◌∷◌ c t) ≡ (u, String.◌∷◌ c t)
unfolding span_until free_of
span_until-append stops String.[] c t h e =
    ap (span_until stops) (nil-append (String.◌∷◌ c t)) ∙ rw e refl
span_until-append stops (String.◌∷◌ x u) c t h e =
    elim (Bool-cases (contains_code stops (code x))) [
      | inl d ↦ absurd (true≢false (sym h ∙ rw d refl))
      | inr d ↦
          let rest : free_of stops u ≡ true = sym (rw d refl) ∙ h in
          ap (span_until stops) (cons-append x u (String.◌∷◌ c t))
          ∙ rw (span_until-append stops u c t rest e, d) refl
    ]

-- Any fuel above the number gives the digits that `str` gives.
show_digits-enough : (f g n : ℕ) → n < f → n < g → show_digits f n ≡ show_digits g n
unfolding show_digits
show_digits-enough zero g n h k = ground arith
show_digits-enough (suc f) zero n h k = ground arith
show_digits-enough (suc f) (suc g) n h k = elim (Bool-cases (ltb n 10)) [
  | inl small ↦ rw small refl
  | inr big ↦
      let lf : n / 10 < f = ground arith in
      let lg : n / 10 < g = ground arith in rw (big, show_digits-enough f g (n / 10) lf lg) refl
]

str-enough : (f n : ℕ) → n < f → show_digits f n ≡ str n
unfolding str
str-enough f n h = show_digits-enough f (suc n) n h (omega arith)
