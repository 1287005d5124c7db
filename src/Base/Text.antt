-- ===== src/Base/Text.antt =====
-- Texts as Python writes them: decimal numbers and f-strings.
pub mod Laws
use Prim.Native.Nat.{ℕ, zero, suc, ◌/◌, ◌%◌}
use Prim.Native.String.{String, ◌++◌}
use Prim.Native.Char.{Char, code}
use mathlib.Core.Bool.{Bool, false, ◌||◌, ◌&&◌}
use mathlib.Core.List.{List, [], ◌∷◌}
use mathlib.Core.Option.{Option, none, some}
use as_platform.Base.Tests.{ltb, leb, eqb, if◌then◌else◌}

-- One decimal digit.
unfoldable pub digit : ℕ → String
digit zero = "0"
digit (suc zero) = "1"
digit (suc (suc zero)) = "2"
digit (suc (suc (suc zero))) = "3"
digit (suc (suc (suc (suc zero)))) = "4"
digit (suc (suc (suc (suc (suc zero))))) = "5"
digit (suc (suc (suc (suc (suc (suc zero)))))) = "6"
digit (suc (suc (suc (suc (suc (suc (suc zero))))))) = "7"
digit (suc (suc (suc (suc (suc (suc (suc (suc zero)))))))) = "8"
digit _ = "9"

-- The digits of a number, on fuel; a number has no more digits than its value plus one.
unfoldable pub show_digits : ℕ → ℕ → String
unfolding digit
show_digits zero n = ""
show_digits (suc f) n =
    let rest = show_digits f (n / 10) in if ltb n 10 then digit n else rest ++ digit (n % 10)

-- `str(n)`
unfoldable pub str : ℕ → String
unfolding show_digits
str n = show_digits (suc n) n

unfoldable pub contains_code : List ℕ → ℕ → Bool
contains_code [] n = false
contains_code (x ∷ xs) n = eqb n x || contains_code xs n

-- `c.isspace()`: the white space of Unicode, which `strip` removes.
unfoldable pub is_space : Char → Bool
unfolding contains_code
is_space c =
    (leb 28 (code c) && leb (code c) 32)
    || (leb 9 (code c) && leb (code c) 13)
    || (leb 8192 (code c) && leb (code c) 8202)
    || contains_code (133 ∷ 160 ∷ 5760 ∷ 8232 ∷ 8233 ∷ 8239 ∷ 8287 ∷ 12288 ∷ []) (code c)

unfoldable pub lstrip : String → String
unfolding is_space
lstrip String.[] = ""
lstrip (String.◌∷◌ c s) = let rest = lstrip s in if is_space c then rest else String.◌∷◌ c s

-- A character in front of what is left of the text behind it.
unfoldable pub put_front : Char → String → String
unfolding is_space
put_front c String.[] = if is_space c then "" else String.◌∷◌ c ""
put_front c (String.◌∷◌ d s) = String.◌∷◌ c (String.◌∷◌ d s)

unfoldable pub rstrip : String → String
unfolding put_front
rstrip String.[] = ""
rstrip (String.◌∷◌ c s) = put_front c (rstrip s)

-- `text.strip()`
unfoldable pub strip : String → String
unfolding lstrip rstrip
strip s = rstrip (lstrip s)

-- The characters that the letters of a pattern match, one after the other; what follows them.
unfoldable pub match_letters : List (List ℕ) → String → Option String
unfolding contains_code
match_letters [] s = some s
match_letters (letter ∷ letters) String.[] = none
match_letters (letter ∷ letters) (String.◌∷◌ c s) =
    let rest = match_letters letters s in if contains_code letter (code c) then rest else none

-- The longest front without the given characters, and the rest.
unfoldable pub span_until : List ℕ → String → String × String
unfolding contains_code
span_until stops String.[] = ("", "")
span_until stops (String.◌∷◌ c s) =
    let (front, rest) = span_until stops s in
    if contains_code stops (code c) then ("", String.◌∷◌ c s) else (String.◌∷◌ c front, rest)
