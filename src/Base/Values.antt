-- ===== src/Base/Values.antt =====
-- The values of a Python dict that is annotated `dict[str, Any]`: what trace attributes and log
-- fields hold. And the outcome of a call.
use Prim.Native.Nat.{ℕ}
use Prim.Native.String.{String}
use mathlib.Core.Bool.{Bool, false, not}
use mathlib.Core.Option.{Option, none, some}
use as_platform.Base.Tests.{◌==◌, eqb, if◌then◌else◌}

pub data Value : Type 0 where
  null : Value
  flag : Bool → Value
  number : ℕ → Value
  text : String → Value

-- `bool(v)`
unfoldable truthy : Value → Bool
truthy null = false
truthy (flag b) = b
truthy (number n) = not (eqb n 0)
truthy (text s) = not (s == "")

-- `o or None`
unfoldable pub or_none : Option Value → Option Value
unfolding truthy
or_none none = none
or_none (some v) = if truthy v then some v else none

-- What a call that may raise comes to.
pub data Reply (E A : Type 0) : Type 0 where
  value : A → Reply E A
  failed : E → Reply E A
