-- ===== src/Tests/Redis.antt =====
-- The theorems on the Redis store, applied to a client that keeps texts in the order of their last
-- accesses.
use mathlib.Core.List.{reverse, reverse-cons}
use Prim.Native.Char.{Char}
use text.Mathlib.TextLemmas.{cons-append}
use as_platform.Base.{
  if◌then◌else◌, ◌==◌, str_dec, startswith, ℕ, ◌<>◌, ◌≡◌, refl, ap, arith, String, List, [], ◌∷◌,
  ◌++◌, none, some, map, length, value, false, contains, ◌-◌, ◌||◌, ◌∙◌,
}
use as_platform.Base.Dict.{Dict, lookup, erase, move_to_end}
use as_platform.StateStore.{family, trim as memory_trim}
use as_platform.RedisStore.{
  RedisClient, Json, WorkItem, read, write, trim, work_item, trim_keys, settle, or_zero, process,
}
use as_platform.RedisStore.Queue.{
  Step, put, work, calls, run, drain, fresh_server, Settled, outlook, extend,
}
use as_platform.RedisStore.Lifecycle.{
  Event, put as put_item, turn, new_store, run as run_events, start, stop,
}
use as_platform.RedisStore.Lifecycle.Worker.{puts, AllEnded}
use as_platform.RedisStore.Lifecycle.Session.{stop-Settled}
use as_platform.RedisStore.Memory.{Documented, repeats, trim_keys-trim}
use as_platform.RedisStore.Answers.{memory_answers, memory_after, drain-memory}

-- A text without its last character.
abbrev chop_from : Char → String → String
chop_from c String.[] = ""
chop_from c (String.◌∷◌ d s) = String.◌∷◌ c (chop_from d s)

abbrev chop : String → String
chop String.[] = ""
chop (String.◌∷◌ c s) = chop_from c s

chop_from_star : (c : Char) (s : String) → chop_from c (s <> "*") ≡ String.◌∷◌ c s
chop_from_star c String.[] = refl
chop_from_star c (String.◌∷◌ d s) =
    rw (cons-append d s "*") (ap (String.◌∷◌ c) (chop_from_star d s))

chop_star : (p : String) → chop (p <> "*") ≡ p
chop_star String.[] = refl
chop_star (String.◌∷◌ c s) = rw (cons-append c s "*") (chop_from_star c s)

-- How many entries were accessed after this one.
abbrev behind : String → Dict String → ℕ
behind k [] = 0
behind k ((j, t) ∷ d) = if k == j then length d else behind k d

abbrev recent_client : RedisClient String
recent_client = record {
  State = Dict String;
  get = λ k s. (value (lookup k s), move_to_end k s);
  set = λ k t s. (value tt, erase k s ++ (k, t) ∷ []);
  scan = λ pattern s. (value (reverse (family (chop pattern) s)), s);
  idletime = λ k s. (value (some (behind k s)), s);
  delete = λ k s. (value tt, erase k s);
}

contains-append_one :
    (k j : String) (ks : List String) → contains (ks ++ j ∷ []) k ≡ contains (j ∷ ks) k
unfolding contains
contains-append_one k j [] = refl
contains-append_one k j (i ∷ ks) = ground (arith, contains-append_one k j ks)

contains-reverse : (k : String) (ks : List String) → contains (reverse ks) k ≡ contains ks k
unfolding contains
contains-reverse k [] = refl
contains-reverse k (j ∷ ks) =
    ap (λ l. contains l k) (reverse-cons j ks)
    ∙ contains-append_one k j (reverse ks)
    ∙ ground (arith, contains-reverse k ks)

abbrev recent_documented : Documented recent_client
recent_documented = record {
  entries = λ s. s;
  idle = λ k s. some (behind k s);
  found = λ p s. reverse (family p s);
  IsPlain = λ p. Unit;
  get_reply = λ k s. refl;
  get_entries = λ k s. refl;
  set_reply = λ k t s. refl;
  set_entries = λ k t s. refl;
  scan_lem = λ p s. rw (chop_star p) refl;
  found_keys = λ p s plain k. contains-reverse k (family p s);
  idletime_lem = λ k s. refl;
  delete_reply = λ k s. refl;
  delete_entries = λ k s. refl;
}

-- A client whose scan lists every key twice.
abbrev echo_client : RedisClient String
echo_client = record recent_client {
  scan = λ pattern s. (value (family (chop pattern) s ++ family (chop pattern) s), s);
}

contains-append :
    (k : String) (ks js : List String) → contains (ks ++ js) k ≡ (contains ks k || contains js k)
unfolding contains
contains-append k [] js = refl
contains-append k (i ∷ ks) js = ground (arith, contains-append k ks js)

contains-twice : (k : String) (ks : List String) → contains (ks ++ ks) k ≡ contains ks k
contains-twice k ks = contains-append k ks ks ∙ ground arith

abbrev echo_documented : Documented echo_client
echo_documented = record {
  entries = λ s. s;
  idle = λ k s. some (behind k s);
  found = λ p s. family p s ++ family p s;
  IsPlain = λ p. Unit;
  get_reply = λ k s. refl;
  get_entries = λ k s. refl;
  set_reply = λ k t s. refl;
  set_entries = λ k t s. refl;
  scan_lem = λ p s. rw (chop_star p) refl;
  found_keys = λ p s plain k. contains-twice k (family p s);
  idletime_lem = λ k s. refl;
  delete_reply = λ k s. refl;
  delete_entries = λ k s. refl;
}

abbrev text_json : Json String String
text_json = record { dumps = value; loads = value }

abbrev seen : Dict String
seen = ("w:1", "a") ∷ ("x", "b") ∷ ("w:2", "c") ∷ ("w:3", "d") ∷ []

-- Three keys are listed six times, so that a limit of 4 leaves one of them.
trim_keys-trim_example :
    ((trim_keys echo_client "w:" 4 seen).0 ≡ value tt)
    × ((trim_keys echo_client "w:" 4 seen).1
        ≡ memory_trim "w:" (4 - repeats echo_client echo_documented "w:" seen) seen)
unfolding family str_dec startswith or_zero
trim_keys-trim_example = trim_keys-trim echo_client echo_documented "w:" 4 seen tt (omega arith)

one_left :
    memory_trim "w:" (4 - repeats echo_client echo_documented "w:" seen) seen
    ≡ ("x", "b") ∷ ("w:3", "d") ∷ []
unfolding family str_dec startswith memory_trim
one_left = refl

-- Two writes, a round, a read, and a trim that leaves one key of the family.
abbrev traffic : List (Step (WorkItem String String))
traffic =
    put (work_item write "w:1" (some "a") none)
    ∷ put (work_item write "w:2" (some "b") none)
    ∷ work
    ∷ put (work_item read "w:1" none none)
    ∷ put (work_item trim "w:" none (some 1))
    ∷ put (work_item read "w:2" none none)
    ∷ []

drain-memory_example :
    let v = run recent_client text_json traffic (fresh_server recent_client text_json []) in
    let drained = drain recent_client text_json v.queue v in
    (map settle drained.completed ≡ memory_answers recent_client text_json (calls traffic) [])
    × (drained.store ≡ memory_after recent_client text_json (calls traffic) [])
unfolding calls work_item process family str_dec startswith or_zero erase move_to_end lookup
drain-memory_example =
    drain-memory recent_client text_json recent_documented traffic []
      (refl, (refl, (refl, (refl, (refl, tt))))) tt
      (tt, (tt, (tt, ((tt, omega arith, refl), (tt, tt)))))

-- A call, a turn for the worker to begin, and two more calls before it gets to its queue.
abbrev session : List (Event (WorkItem String String))
session =
    put_item (work_item write "w:1" (some "a") none)
    ∷ turn 0
    ∷ put_item (work_item read "w:1" none none)
    ∷ turn 0
    ∷ put_item (work_item trim "w:" none (some 0))
    ∷ []

-- The worker's turns while `stop` waits, with those of threads that there are not.
abbrev last_turns : List ℕ
last_turns = 0 ∷ 3 ∷ 0 ∷ 0 ∷ 1 ∷ 0 ∷ []

stop-Settled_example :
    let s = new_store recent_client text_json "no client" [] in
    let s0 = (start recent_client text_json "no client" (value tt) (value tt) s).1 in
    let s1 = run_events recent_client text_json "no client" session s0 in
    let s2 = stop recent_client text_json "no client" (map turn last_turns) s1 in
    AllEnded recent_client text_json "no client" s2
    × Settled recent_client text_json
        (extend recent_client text_json (outlook recent_client text_json s.server) (puts session))
        s2.server
    × (s2.worker ≡ none)
    × (s2.connected ≡ false)
unfolding new_store
stop-Settled_example =
    stop-Settled recent_client text_json "no client"
      (new_store recent_client text_json "no client" []) session last_turns (λ u. refl)
      (unfold run_events start work_item in omega arith)
