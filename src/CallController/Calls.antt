-- ===== src/CallController/Calls.antt =====
-- Which hops are dialled and which events a leg is handed, read off the calls of sippy.
use as_platform.Base.{
  ℕ, ◌≡◌, refl, ap, String, List, [], ◌∷◌, ◌++◌, some, arith, if◌then◌else◌, eqb,
}
use as_platform.World.{CcEvent, NextHop, SippyCall}

-- The addresses that UAs were made for, and the events that one UA was handed.
unfoldable pub dialled : List SippyCall → List (String × ℕ)
dialled [] = []
dialled (SippyCall.new_ua ua (some address) ∷ calls) = address ∷ dialled calls
dialled (_ ∷ calls) = dialled calls

unfoldable pub handed : ℕ → List SippyCall → List CcEvent
handed ua [] = []
handed ua (SippyCall.recv_event leg e conf ∷ calls) =
    if eqb ua leg then e ∷ handed ua calls else handed ua calls
handed ua (_ ∷ calls) = handed ua calls

abbrev pub address : NextHop → String × ℕ
address hop = (hop.address, hop.port)

pub dialled-append : (xs ys : List SippyCall) → dialled (xs ++ ys) ≡ dialled xs ++ dialled ys
unfolding dialled
dialled-append [] ys = refl
dialled-append (SippyCall.new_ua ua (some address) ∷ xs) ys =
    ap (◌∷◌ address) (dialled-append xs ys)
dialled-append (_ ∷ xs) ys = dialled-append xs ys

pub handed-append :
    (ua : ℕ) (xs ys : List SippyCall) → handed ua (xs ++ ys) ≡ handed ua xs ++ handed ua ys
unfolding handed
handed-append ua [] ys = refl
handed-append ua (SippyCall.recv_event leg e conf ∷ xs) ys = ground (arith, handed-append ua xs ys)
handed-append ua (_ ∷ xs) ys = handed-append ua xs ys
