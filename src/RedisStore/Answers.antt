-- ===== src/RedisStore/Answers.antt =====
-- What the calls of the Redis store answer, against an in-memory store that keeps the same texts.
use as_platform.Base.{
  ◌≡◌, refl, sym, ap, ◌∙◌, ◌-◌, subst, String, List, [], ◌∷◌, ◌++◌, Option, none, some, Reply,
  value, failed, map, All, arith,
}
use as_platform.Base.Dict.{Dict, lookup, insert, erase, move_to_end, NodupKeys}
use as_platform.Base.Dict.Laws.{lookup-insert}
use as_platform.StateStore.{family, read as memory_read, write as memory_write, trim as memory_trim}
use as_platform.StateStore.Lawful.{
  read-value, read-state, read-NodupKeys, write-NodupKeys, trim-NodupKeys,
}
use as_platform.RedisStore.{
  RedisClient, Json, WorkItem, Op, read, write, trim, or_zero, settle, loaded, store_item, perform,
  process, finished, trim_keys, unit_reply,
}
use as_platform.RedisStore.Queue.{
  process_all, Step, calls, run, drain, fresh_server, drain-process_all,
}
use as_platform.RedisStore.Ranking.{Falling}
use as_platform.RedisStore.Memory.{Documented, idle_for, repeats, trim_keys-trim}

module _ {V : Type 0} where
  erase-insert : (k : String) (v : V) (d : Dict V) → erase k (insert k v d) ≡ erase k d
  unfolding erase insert
  erase-insert k v [] = ground arith
  erase-insert k v (x ∷ d) = ground (arith, erase-insert k v d)

  write-erase : (k : String) (v : V) (d : Dict V) → memory_write k v d ≡ erase k d ++ (k, v) ∷ []
  unfolding memory_write move_to_end
  write-erase k v d =
      let here : lookup k (insert k v d) ≡ some v = ground (arith, lookup-insert k k v d) in
      rw (here, memory_write, move_to_end) (rw (erase-insert k v d) refl)

module _ {E V : Type 0} (client : RedisClient E) (json : Json E V) where
  abbrev written : Option String → WorkItem E V → Dict String → Reply E (Option V) × Dict String
  written none item d = (value none, d)
  written (some text) item d = (value none, memory_write item.key text d)

  -- The call of an in-memory store of texts that an item stands for, and what `json` makes of it.
  abbrev memory_call : Op → WorkItem E V → Dict String → Reply E (Option V) × Dict String
  memory_call read item d =
      (loaded client json (value (memory_read item.key d).0), (memory_read item.key d).1)
  memory_call write item d = written item.stored item d
  memory_call trim item d = (value none, memory_trim item.key (or_zero item.limit) d)

  -- What the callers get, one after the other, and the dict at the end.
  abbrev pub memory_answers : List (WorkItem E V) → Dict String → List (Reply E (Option V))
  memory_answers [] d = []
  memory_answers (item ∷ items) d =
      (memory_call item.op item d).0 ∷ memory_answers items (memory_call item.op item d).1

  abbrev pub memory_after : List (WorkItem E V) → Dict String → Dict String
  memory_after [] d = d
  memory_after (item ∷ items) d = memory_after items (memory_call item.op item d).1

  unit_reply_value :
      (r : Reply E (Unit {0}) × client.State)
      → r.0 ≡ value tt
      → ((unit_reply client json r).0 ≡ value none) × ((unit_reply client json r).1 ≡ r.1)
  unit_reply_value (value _, s) h = (refl, refl)
  unit_reply_value (failed e, s) h = cc

  settle-finished :
      (item : WorkItem E V) (r : Reply E (Option V) × client.State)
      → item.error ≡ none
      → (settle (finished client json item r).0 ≡ r.0) × ((finished client json item r).1 ≡ r.1)
  unfolding settle finished
  settle-finished item (value v, s) h = (rw h refl, refl)
  settle-finished item (failed e, s) h = (refl, refl)

  module _ (redis : Documented client) where
    open redis use {entries, IsPlain}

    -- At a `trim`, the prefix is plain, no two keys of the family have been idle equally long, and the
    -- scan lists no key again.
    abbrev TrimOk : Op → WorkItem E V → client.State → Type 0
    TrimOk read item s = Unit
    TrimOk write item s = Unit
    TrimOk trim item s =
        IsPlain item.key
        × Falling (idle_for client redis s) (family item.key (entries s))
        × (repeats client redis item.key s ≡ 0)

    abbrev AllTrimsOk : List (WorkItem E V) → client.State → Type 0
    AllTrimsOk [] s = Unit
    AllTrimsOk (item ∷ items) s =
        TrimOk item.op item s × AllTrimsOk items (process client json item s).1

    store_item-memory :
        (stored : Option String) (item : WorkItem E V) (s : client.State)
        → NodupKeys (entries s)
        → let r = unit_reply client json (store_item client json item.key stored s) in
          let m = written stored item (entries s) in
          (r.0 ≡ m.0) × (entries r.1 ≡ m.1) × NodupKeys m.1
    unfolding store_item
    store_item-memory none item s h = (refl, refl, h)
    store_item-memory (some text) item s h =
        let unit =
          unit_reply_value (client.set item.key text s) (redis.set_reply item.key text s) in
        (
          unit.0,
          ap entries unit.1
              ∙ redis.set_entries item.key text s
              ∙ sym (write-erase item.key text (entries s)),
          write-NodupKeys item.key text (entries s) h,
        )

    perform-memory_call :
        (op : Op) (item : WorkItem E V) (s : client.State)
        → NodupKeys (entries s)
        → TrimOk op item s
        → ((perform client json op item s).0 ≡ (memory_call op item (entries s)).0)
          × (entries (perform client json op item s).1 ≡ (memory_call op item (entries s)).1)
          × NodupKeys (memory_call op item (entries s)).1
    unfolding perform
    perform-memory_call read item s h t = (
      rw (redis.get_reply item.key s) (
          ap (λ (o : Option String). loaded client json (value o))
            (sym (read-value item.key (entries s) h))),
      redis.get_entries item.key s ∙ sym (read-state item.key (entries s)),
      read-NodupKeys item.key (entries s) h,
    )
    perform-memory_call write item s h t = store_item-memory item.stored item s h
    perform-memory_call trim item s h t =
        let trimmed = trim_keys-trim client redis item.key (or_zero item.limit) s t.0 t.1 in
        let same : or_zero item.limit - repeats client redis item.key s ≡ or_zero item.limit =
          omega (arith, t.2) in
        let unit = unit_reply_value (trim_keys client item.key (or_zero item.limit) s) trimmed.0 in
        (
          unit.0,
          ap entries unit.1 ∙ trimmed.1 ∙ ap (λ n. memory_trim item.key n (entries s)) same,
          trim-NodupKeys item.key (or_zero item.limit) (entries s) h,
        )

    settle-process :
        (item : WorkItem E V) (s : client.State)
        → item.error ≡ none
        → (settle (process client json item s).0 ≡ (perform client json item.op item s).0)
          × ((process client json item s).1 ≡ (perform client json item.op item s).1)
    unfolding settle process
    settle-process item s h = settle-finished item (perform client json item.op item s) h

    process_all-memory :
        (items : List (WorkItem E V)) (s : client.State)
        → All (λ item. item.error ≡ none) items
        → NodupKeys (entries s)
        → AllTrimsOk items s
        → (map settle (process_all client json items s).0 ≡ memory_answers items (entries s))
          × (entries (process_all client json items s).1 ≡ memory_after items (entries s))
    unfolding process_all
    process_all-memory [] s f h t = (refl, refl)
    process_all-memory (item ∷ items) s f h t =
        let first = perform-memory_call item.op item s h t.0 in
        let settled = settle-process item s f.0 in
        let moved = ap entries settled.1 ∙ first.1 in
        let rest =
          process_all-memory items (process client json item s).1 f.1
            (subst NodupKeys (sym moved) first.2) t.1 in
        (
          λ i. (settled.0 ∙ first.0) i ∷ (rest.0 ∙ ap (memory_answers items) moved) i,
          rest.1 ∙ ap (memory_after items) moved,
        )

    -- Whatever the order in which calls and rounds of the worker interleave, once the queue has been
    -- drained every caller gets what an in-memory store of the same texts answers to the calls in their
    -- order, read back by `json`, and the database holds the entries of that store in their order: if
    -- no key stands twice in the database at first, and at each `trim` its prefix is plain, no two keys of
    -- the family have been idle for the same time, and the scan lists no key more than once, which Redis
    -- does not promise. The items carry no error when they are put on the queue.
    pub drain-memory :
        (steps : List (Step (WorkItem E V))) (s : client.State)
        → All (λ item. item.error ≡ none) (calls steps)
        → NodupKeys (entries s)
        → AllTrimsOk (calls steps) s
        → let v = run client json steps (fresh_server client json s) in
          let drained = drain client json v.queue v in
          (map settle drained.completed ≡ memory_answers (calls steps) (entries s))
          × (entries drained.store ≡ memory_after (calls steps) (entries s))
    drain-memory steps s f h t =
        let done = drain-process_all client json steps s in
        let all = process_all-memory (calls steps) s f h t in
        (ap (map settle) done.1 ∙ all.0, ap entries done.2 ∙ all.1)
