-- ===== src/CallController/Attempt.antt =====
-- One attempt at a next hop: what it leaves behind in the controller and in sippy.
use mathlib.Core.List.{append_assoc}
use as_platform.Base.{
  suc, ◌≡◌, refl, sym, ap, subst, true, false, String, List, [], ◌∷◌, ◌++◌, Option, none, some,
  arith, Value, text,
}
use as_platform.Base.Dict.{Dict, has, insert, keys}
use as_platform.World.{
  M, State, ◌>>=◌, trace, log_event, Result, ok, raised, clash, Env, try_event, NextHop, TryData,
  PolicyDecision, SippyCall, Controller,
}
use as_platform.CallController.{
  originate_towards, log_keywords, relay_vocabulary, with_attempt_fields, pinned, local_contact,
  option_or, default_next_hop_expire, new_ua, start_timer, note, log_with, with_identity,
}

-- The handler returns, and the state that it leaves has the property.
abbrev pub Returns : {A : Type 0} → (A → State → Type 0) → Result A → Type 0
Returns P (ok a s) = P a s
Returns P (raised e s) = ⊥

pub Returns-bind :
    {A B : Type 0} {P : A → State → Type 0} (Q : B → State → Type 0) (m : M A) (f : A → M B)
    (s : State)
    → Returns P (m s)
    → ((a : A) (t : State) → P a t → Returns Q (f a t))
    → Returns Q ((m >>= f) s)
Returns-bind {A} {B} {P} Q m f s h k = go (m s) h
  where
    go :
        (r : Result A)
        → Returns P r
        → Returns Q (elim r [ ok a t ↦ f a t | raised e t ↦ raised e t ])
    go (ok a t) p = k a t p
    go (raised e t) p = absurd p

pub Returns-mono :
    {A : Type 0} {P : A → State → Type 0} (Q : A → State → Type 0) (r : Result A)
    → Returns P r
    → ((a : A) (t : State) → P a t → Q a t)
    → Returns Q r
Returns-mono Q (ok a t) h k = k a t h
Returns-mono Q (raised e t) h k = absurd h

pub >>=-step :
    {A B : Type 0} (m : M A) (f : A → M B) (s : State) {a : A} {t : State}
    → m s ≡ ok a t
    → (m >>= f) s ≡ f a t
>>=-step m f s e = ap (λ r. elim r [ ok a t ↦ f a t | raised x t ↦ raised x t ]) e

pub Returns-step :
    {A B : Type 0} (Q : B → State → Type 0) (m : M A) (f : A → M B) (s : State) {a : A} {t : State}
    → m s ≡ ok a t
    → Returns Q (f a t)
    → Returns Q ((m >>= f) s)
Returns-step Q m f s e h =
    subst (λ r. Returns Q (elim r [ ok a t ↦ f a t | raised x t ↦ raised x t ])) (sym e) h

-- No field of the application is spelled like an argument that the log call already has.
abbrev pub IsLoggable : Option PolicyDecision → Type 0
IsLoggable none = Unit {0}
IsLoggable (some p) = clash (log_keywords ++ "method" ∷ []) p.relay_log_fields ≡ false

has-insert_self :
    (j k : String) (v : Value) (d : Dict Value) → has k d ≡ true → has j (insert k v d) ≡ has j d
unfolding has insert
has-insert_self j k v [] h = cc
has-insert_self j k v (e ∷ d) h = ground (arith, has-insert_self j k v d)

has-with_attempt_fields :
    (j : String) (d : Dict Value) (hop : NextHop) (called : String)
    → has j (with_attempt_fields d hop called) ≡ has j d
unfolding with_attempt_fields
has-with_attempt_fields j d hop called = ground (
  arith,
  has-insert_self j "called_number" (text called) d,
  has-insert_self j "next_hop" (text hop.name) d,
  has-insert_self j "next_hop" (text hop.name) (insert "called_number" (text called) d),
)

clash-with_attempt_fields :
    (ks : List String) (d : Dict Value) (hop : NextHop) (called : String)
    → clash ks (with_attempt_fields d hop called) ≡ clash ks d
unfolding clash
clash-with_attempt_fields [] d hop called = refl
clash-with_attempt_fields (k ∷ ks) d hop called =
    rw (has-with_attempt_fields k d hop called, clash-with_attempt_fields ks d hop called)

words-IsLoggable :
    (policy : Option PolicyDecision) (hop : NextHop) (called : String)
    → IsLoggable policy
    → clash (log_keywords ++ "method" ∷ []) (relay_vocabulary policy hop called).2 ≡ false
unfolding relay_vocabulary clash has
words-IsLoggable none hop called h = refl
words-IsLoggable (some p) hop called h = rw clash-with_attempt_fields h

-- The controller after an attempt at `hop`, begun in `s`.
abbrev pub attempted : NextHop → State → Controller
attempted hop s = record s.ctl {
  serving_hop = some hop;
  next_hop = some (hop.address, hop.port);
  ua_o = some s.world.next_ua;
  no_answer_timer = some s.world.next_timer;
}

-- The calls of sippy that make an attempt.
abbrev pub attempt_calls : NextHop → TryData → State → List SippyCall
attempt_calls hop pending s =
    let config = s.ctl.global_config in
    let conf = s.world.sip_conf in
    SippyCall.new_ua s.world.next_ua (some (hop.address, hop.port))
    ∷ SippyCall.set_local s.world.next_ua (option_or config.sip_uaname "")
        (local_contact config conf)
    ∷ SippyCall.start_timer s.world.next_timer
        (option_or config.next_hop_expire default_next_hop_expire)
    ∷ SippyCall.recv_event s.world.next_ua (try_event pending) (pinned config conf)
    ∷ []

abbrev pub Attempted : NextHop → TryData → State → State → Type 0
Attempted hop pending s t =
    (t.ctl ≡ attempted hop s)
    × (t.world.sippy ≡ s.world.sippy ++ attempt_calls hop pending s)
    × (t.world.armed ≡ s.world.armed ++ s.world.next_timer ∷ [])
    × (t.world.next_ua ≡ suc s.world.next_ua)
    × (t.world.next_timer ≡ suc s.world.next_timer)
    × (t.world.sip_conf ≡ s.world.sip_conf)

pub originate_towards-Attempted :
    (env : Env) (hop : NextHop) (pending : TryData) (s : State)
    → s.ctl.pending_event ≡ some pending
    → IsLoggable s.ctl.policy
    → Returns (λ _. Attempted hop pending s) (originate_towards env hop s)
unfolding originate_towards new_ua start_timer note log_with with_identity trace log_event keys
originate_towards-Attempted env hop pending s e h =
    rw (e, words-IsLoggable s.ctl.policy hop pending.called h)
      (refl, simp append_assoc, refl, refl, refl, refl)
