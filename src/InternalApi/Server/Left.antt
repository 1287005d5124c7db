-- ===== src/InternalApi/Server/Left.antt =====
-- Which uvicorn servers a sequence of starts and stops leaves serving.
use as_platform.Base.{
  ℕ, suc, ◌<◌, ◌≡◌, refl, sym, ap, ◌∙◌, not, String, List, [], ◌∷◌, ◌++◌, none, some, arith, eqb,
  keep, All, if◌then◌else◌,
}
use mathlib.Core.List.{append-nil, append_assoc}
use as_platform.InternalApi.Server.{
  Identity, Uvicorn, Machine, Server, new_server, start, serve, stop, ask, ask_held,
}

pub data Command : Type 0 where
  starts stops : Command

unfoldable pub obey : List Command → Server → Machine → Machine
unfolding start stop
obey [] s m = m
obey (starts ∷ cs) s m = let (s', m') = start s m in obey cs s' m'
obey (stops ∷ cs) s m = let (s', m') = stop s m in obey cs s' m'

-- The numbers of the servers that have not been asked to exit.
abbrev pub serving : List Uvicorn → List ℕ
serving [] = []
serving (u ∷ us) = if u.should_exit then serving us else u.number ∷ serving us

-- A start that the next command does not undo leaves its server serving.
abbrev left_serving : ℕ → List Command → List ℕ
left_serving n [] = []
left_serving n (stops ∷ cs) = left_serving n cs
left_serving n (starts ∷ []) = n ∷ []
left_serving n (starts ∷ stops ∷ cs) = left_serving (suc n) cs
left_serving n (starts ∷ starts ∷ cs) = n ∷ left_serving (suc n) (starts ∷ cs)

serving-append : (us vs : List Uvicorn) → serving (us ++ vs) ≡ serving us ++ serving vs
serving-append [] vs = refl
serving-append (u ∷ us) vs = ground (arith, serving-append us vs)

serving-ask :
    (n : ℕ) (us : List Uvicorn) → serving (ask n us) ≡ keep (λ x. not (eqb x n)) (serving us)
unfolding ask
serving-ask n [] = refl
serving-ask n (u ∷ us) = ground (arith, serving-ask n us)

keep_others :
    (n : ℕ) (l : List ℕ) → All (λ x. x < n) l → keep (λ x. not (eqb x n)) (l ++ n ∷ []) ≡ l
keep_others n [] h = ground arith
keep_others n (x ∷ l) h = ground (arith, keep_others n l h.1)

All-snoc : (n : ℕ) (l : List ℕ) → All (λ x. x < n) l → All (λ x. x < suc n) (l ++ n ∷ [])
All-snoc n [] h = (omega arith, tt)
All-snoc n (x ∷ l) h = (omega arith, All-snoc n l h.1)

All-suc : (n : ℕ) (l : List ℕ) → All (λ x. x < n) l → All (λ x. x < suc n) l
All-suc n [] h = tt
All-suc n (x ∷ l) h = (omega arith, All-suc n l h.1)

-- No server is held; these ones serve.
abbrev Idle : List ℕ → ℕ → Server → Machine → Type 0
Idle us n s m = (s.server ≡ none) × (serving m.servers ≡ us) × (m.next ≡ n) × All (λ x. x < n) us

-- The last server that was made is held, and serves besides these ones.
abbrev Holding : List ℕ → ℕ → Server → Machine → Type 0
Holding us n s m =
    (s.server ≡ some n)
    × (serving m.servers ≡ us ++ n ∷ [])
    × (m.next ≡ suc n)
    × All (λ x. x < n) us

start-Holding :
    (us : List ℕ) (n : ℕ) (s : Server) (m : Machine)
    → serving m.servers ≡ us
    → m.next ≡ n
    → All (λ x. x < n) us
    → let (s', m') = start s m in Holding us n s' m'
unfolding start serve
start-Holding us n s m e next below =
    (ap some next, serving-append m.servers _ ∙ rw (e, next) refl, ap suc next, below)

stop-Idle :
    (us : List ℕ) (n : ℕ) (s : Server) (m : Machine)
    → Holding us n s m
    → let (s', m') = stop s m in Idle us (suc n) s' m'
unfolding stop ask_held
stop-Idle us n s m (held, e, next, below) =
    rw held
      (refl, serving-ask n m.servers ∙ rw e (keep_others n us below), next, All-suc n us below)

stop-Idle_again :
    (us : List ℕ) (n : ℕ) (s : Server) (m : Machine)
    → Idle us n s m
    → let (s', m') = stop s m in Idle us n s' m'
unfolding stop ask_held
stop-Idle_again us n s m (held, e, next, below) = rw held (refl, e, next, below)

-- From an idle server and from a holding one, by induction on the commands.
abbrev Obeyed : List Command → Type 0
Obeyed cs =
    ((us : List ℕ) (n : ℕ) (s : Server) (m : Machine)
      → Idle us n s m
      → serving (obey cs s m).servers ≡ us ++ left_serving n cs)
    × ((us : List ℕ) (n : ℕ) (s : Server) (m : Machine)
        → Holding us n s m
        → serving (obey cs s m).servers ≡ us ++ left_serving n (starts ∷ cs))

obey-Obeyed : (cs : List Command) → Obeyed cs
unfolding obey
obey-Obeyed [] = (λ us n s m (_, e, _, _). e ∙ sym (append-nil us), λ us n s m (_, e, _, _). e)
obey-Obeyed (starts ∷ cs) = (
  λ us n s m (_, e, next, below).
      let (s', m') = start s m in
      (obey-Obeyed cs).1 us n s' m' (start-Holding us n s m e next below),
  λ us n s m (_, e, next, below).
      let (s', m') = start s m in
      (obey-Obeyed cs).1 (us ++ n ∷ []) (suc n) s' m'
        (start-Holding (us ++ n ∷ []) (suc n) s m e next (All-snoc n us below))
      ∙ append_assoc us (n ∷ []) (left_serving (suc n) (starts ∷ cs)),
)
obey-Obeyed (stops ∷ cs) = (
  λ us n s m h.
      let (s', m') = stop s m in (obey-Obeyed cs).0 us n s' m' (stop-Idle_again us n s m h),
  λ us n s m h.
      let (s', m') = stop s m in (obey-Obeyed cs).0 us (suc n) s' m' (stop-Idle us n s m h),
)

-- From a new server and no other, after any sequence of starts and stops: the uvicorn servers that have
-- not been asked to exit are those whose start the next command, a stop, did not undo, in the order
-- of their making. A stop without a start before it changes nothing, and a second start leaves the
-- server of the first to serve, whatever follows.
pub obey-left_serving :
    (cs : List Command) (address : String) (port : ℕ) (version : String) (identity : Identity)
    (now : ℕ)
    → serving
        (obey cs
          (new_server address port version identity now)
          (record { servers = []; next = 0 })).servers
      ≡ left_serving 0 cs
unfolding new_server
obey-left_serving cs address port version identity now =
    (obey-Obeyed cs).0 [] 0 _ _ (refl, refl, refl, tt)
