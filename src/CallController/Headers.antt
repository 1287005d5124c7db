-- ===== src/CallController/Headers.antt =====
-- call_controller.py, `_pass_through_headers`: which headers of the trunk's INVITE the outbound INVITE
-- is given. The bodies of a request under a header name are sippy's `getHFBodys`, a parameter.
use mathlib.Core.List.{append-nil}
use as_platform.Base.{
  sym, ◌≡◌, refl, ap, ◌∙◌, inl, inr, String, List, [], ◌∷◌, ◌++◌, Option, none, some, arith,
  contains, if◌then◌else◌, ◌==◌, str_dec, Bool-cases, false,
}
use as_platform.SipAdapter.{passthrough_headers}
use as_platform.SipAdapter.Timers.{Distinct}

distinct : Distinct passthrough_headers
unfolding contains str_dec
distinct = (refl, (refl, (refl, (refl, (refl, (refl, (refl, (refl, (refl, tt)))))))))

module _ {B : Type 0} where
  -- `for body in request.getHFBodys(name)`
  unfoldable named : String → List B → List (String × B)
  named name [] = []
  named name (body ∷ bodies) = (name, body) ∷ named name bodies

  -- `for name in PASSTHROUGH_HEADERS`
  unfoldable copy_headers : (String → List B) → List String → List (String × B)
  unfolding named
  copy_headers bodies_of [] = []
  copy_headers bodies_of (name ∷ names) =
      named name (bodies_of name) ++ copy_headers bodies_of names

  unfoldable pass_through_headers : Option (String → List B) → List (String × B)
  unfolding copy_headers
  pass_through_headers none = []
  pass_through_headers (some bodies_of) = copy_headers bodies_of passthrough_headers

  -- The bodies of a list of headers under one name, in their order.
  abbrev bodies_under : String → List (String × B) → List B
  bodies_under name [] = []
  bodies_under name ((n, body) ∷ headers) =
      let rest = bodies_under name headers in if name == n then body ∷ rest else rest

  bodies_under-append :
      (name : String) (xs ys : List (String × B))
      → bodies_under name (xs ++ ys) ≡ bodies_under name xs ++ bodies_under name ys
  bodies_under-append name [] ys = refl
  bodies_under-append name (x ∷ xs) ys = ground (arith, bodies_under-append name xs ys)

  bodies_under-named :
      (name n : String) (bodies : List B)
      → bodies_under name (named n bodies) ≡ (if name == n then bodies else [])
  unfolding named
  bodies_under-named name n [] = ground arith
  bodies_under-named name n (body ∷ bodies) = ground (arith, bodies_under-named name n bodies)

  bodies_under-copy :
      (name : String) (bodies_of : String → List B) (names : List String)
      → Distinct names
      → bodies_under name (copy_headers bodies_of names)
        ≡ (if contains names name then bodies_of name else [])
  unfolding copy_headers contains
  bodies_under-copy name bodies_of [] h = refl
  bodies_under-copy name bodies_of (n ∷ names) h =
      bodies_under-append name (named n (bodies_of n)) (copy_headers bodies_of names)
      ∙ rw (bodies_under-named name n (bodies_of n), bodies_under-copy name bodies_of names h.1)
          (elim (Bool-cases (name == n)) [
            | inl same ↦
                let path : name ≡ n = ground arith in
                let gone : contains names name ≡ false = ap (contains names) path ∙ h.0 in
                rw (same, gone, append-nil) (ap bodies_of (sym path))
            | inr differ ↦ rw differ refl
          ])

  -- Of a request's headers, the outbound INVITE is given under every name on the list all the bodies
  -- that the request has under that name, in their order, and nothing under any other name.
  pass_through_headers-named :
      (name : String) (bodies_of : String → List B)
      → bodies_under name (pass_through_headers (some bodies_of))
        ≡ (if contains passthrough_headers name then bodies_of name else [])
  unfolding pass_through_headers
  pass_through_headers-named name bodies_of =
      bodies_under-copy name bodies_of passthrough_headers distinct
