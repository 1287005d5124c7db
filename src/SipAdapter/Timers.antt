-- ===== src/SipAdapter/Timers.antt =====
-- The timers of one transaction, and what the cancellation leaves of them.
use as_platform.Base.{
  ℕ, ◌≡◌, refl, sym, ap, ◌∙◌, Bool, true, false, ◌==◌, String, List, [], ◌∷◌, ◌++◌, Option, none,
  some, arith, if◌then◌else◌, contains, Bool-cases, inl, inr, str_dec, if_pos, if_neg, ◌||◌,
}
use mathlib.Core.List.{append-eq-nil_iff}
use mathlib.Core.Bool.{true≢false}
use as_platform.Base.Dict.{Dict, get_or, insert}
use as_platform.Base.Dict.Laws.{lookup-insert}
use as_platform.SipAdapter.{
  Timer, Transaction, TransactionManager, transaction_timer_names, cancel_timer_of, cancel_timers,
}

-- The timer of an attribute that is still to fire.
unfoldable pub live : Option Timer → List ℕ
live none = []
live (some timer) = if timer.pending then timer.ident ∷ [] else []

-- Those of a transaction, read off before anything is cancelled.
abbrev live_timers : List String → Transaction → List ℕ
live_timers [] t = []
live_timers (name ∷ names) t = live (get_or name none t) ++ live_timers names t

abbrev pub live_table : Dict Transaction → List ℕ
live_table [] = []
live_table ((_, t) ∷ table) = live_timers transaction_timer_names t ++ live_table table

abbrev pub live_tables : Option (Dict Transaction) → List ℕ
live_tables none = []
live_tables (some table) = live_table table

abbrev pub live_manager : TransactionManager → List ℕ
live_manager m = live_tables m.tclient ++ live_tables m.tserver

-- No name twice.
abbrev pub Distinct : List String → Type 0
Distinct [] = Unit {0}
Distinct (name ∷ names) = (contains names name ≡ false) × Distinct names

get_or-insert :
    (j name : String) (v : Option Timer) (t : Transaction)
    → get_or j none (insert name v t) ≡ (if j == name then v else get_or j none t)
unfolding get_or
get_or-insert j name v t = ground (arith, lookup-insert j name v t)

live-cancel_timer_of :
    (o : Option Timer) (name : String) (t : Transaction) → (cancel_timer_of o name t).0 ≡ live o
unfolding cancel_timer_of live
live-cancel_timer_of none name t = refl
live-cancel_timer_of (some timer) name t = ground arith

-- The other attributes stay.
cancel_timer_of-other :
    (o : Option Timer) (j name : String) (t : Transaction)
    → (j == name) ≡ false
    → get_or j none (cancel_timer_of o name t).1 ≡ get_or j none t
unfolding cancel_timer_of
cancel_timer_of-other none j name t h = refl
cancel_timer_of-other (some timer) j name t h = ground (arith, get_or-insert j name none t)

-- And the attribute itself holds no live timer any more.
cancel_timer_of_self :
    (o : Option Timer) (name : String) (t : Transaction)
    → get_or name none t ≡ o
    → live (get_or name none (cancel_timer_of o name t).1) ≡ []
unfolding cancel_timer_of live
cancel_timer_of_self none name t e = rw e refl
cancel_timer_of_self (some timer) name t e =
    let if_same : (if name == name then none else get_or name none t) ≡ none =
      ap (λ (b : Bool). if b then none else get_or name none t)
        (if_pos (str_dec name name) refl true false) in
    elim (Bool-cases timer.pending) [
      | inl p ↦ rw p (ap live (get_or-insert name name none t ∙ if_same))
      | inr p ↦ rw (p, e) (rw p refl)
    ]

cancel_timers-other :
    (names : List String) (j : String) (t : Transaction)
    → contains names j ≡ false
    → get_or j none (cancel_timers names t).1 ≡ get_or j none t
unfolding cancel_timers contains
cancel_timers-other [] j t h = refl
cancel_timers-other (name ∷ names) j t h = elim (Bool-cases (j == name)) [
  | inl same ↦ absurd (true≢false (sym (rw same refl) ∙ h))
  | inr differs ↦
      let more : contains names j ≡ false = sym (rw differs refl) ∙ h in
      cancel_timers-other names j _ more
      ∙ cancel_timer_of-other (get_or name none t) j name t differs
]

live_timers-other :
    (o : Option Timer) (name : String) (names : List String) (t : Transaction)
    → contains names name ≡ false
    → live_timers names (cancel_timer_of o name t).1 ≡ live_timers names t
unfolding contains
live_timers-other o name [] t h = refl
live_timers-other o name (x ∷ names) t h = elim (str_dec name x) [
  | yes same ↦ absurd (
      true≢false (
        sym (ap (λ (b : Bool). b || contains names name) (if_pos (str_dec name x) same true false))
        ∙ h))
  | no differ ↦
      let more : contains names name ≡ false =
        sym
          (ap (λ (b : Bool). b || contains names name) (if_neg (str_dec name x) differ true false))
        ∙ h in
      let other : (x == name) ≡ false = if_neg (str_dec x name) (λ p. differ (sym p)) true false in
      rw (cancel_timer_of-other o x name t other, live_timers-other o name names t more) refl
]

-- What is cancelled is what was live, in the order of the names.
pub cancel_timers-live :
    (names : List String) (t : Transaction)
    → Distinct names
    → (cancel_timers names t).0 ≡ live_timers names t
unfolding cancel_timers
cancel_timers-live [] t h = refl
cancel_timers-live (name ∷ names) t h =
    let o = get_or name none t in
    rw
      (
        live-cancel_timer_of o name t,
        cancel_timers-live names (cancel_timer_of o name t).1 h.1,
        live_timers-other o name names t h.0,
      )
      refl

-- And nothing is live afterwards.
pub cancel_timers-none :
    (names : List String) (t : Transaction)
    → Distinct names
    → live_timers names (cancel_timers names t).1 ≡ []
unfolding cancel_timers
cancel_timers-none [] t h = refl
cancel_timers-none (name ∷ names) t h =
    let next = (cancel_timer_of (get_or name none t) name t).1 in
    let mine : live (get_or name none (cancel_timers names next).1) ≡ [] =
      ap live (cancel_timers-other names name next h.0)
      ∙ cancel_timer_of_self (get_or name none t) name t refl in
    rw (mine, cancel_timers-none names next h.1) refl

-- Where nothing is live nothing changes.
cancel_timer_of-idle :
    (o : Option Timer) (name : String) (t : Transaction)
    → live o ≡ []
    → cancel_timer_of o name t ≡ ([], t)
unfolding cancel_timer_of live
cancel_timer_of-idle none name t h = refl
cancel_timer_of-idle (some timer) name t h = ground arith

pub cancel_timers-idle :
    (names : List String) (t : Transaction)
    → live_timers names t ≡ []
    → cancel_timers names t ≡ ([], t)
unfolding cancel_timers
cancel_timers-idle [] t h = refl
cancel_timers-idle (name ∷ names) t h =
    let none_live = append-eq-nil_iff.0 h in
    rw
      (
        cancel_timer_of-idle (get_or name none t) name t none_live.0,
        cancel_timers-idle names t none_live.1,
      )
      refl

pub names-Distinct : Distinct transaction_timer_names
unfolding contains str_dec
names-Distinct = (refl, (refl, (refl, (refl, (refl, (refl, (refl, tt)))))))
