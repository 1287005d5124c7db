-- ===== src/RedisStore.antt =====
-- state_store.py, `RedisStateStore` and `_RedisWorkItem`: calls become work items in a queue, which
-- one worker thread takes in order. The Redis client and `json` are not part of the repository: both
-- are parameters. What `wait` does after its ten seconds is `settle` on an item that is not done.
pub mod Queue
pub mod Eviction
pub mod Lifecycle
pub mod Ranking
pub mod Scan
pub mod Memory
pub mod Answers
use as_platform.Base.{
  Reply, value, failed, ℕ, ◌-◌, ◌<>◌, Bool, true, false, String, List, [], ◌∷◌, ◌++◌, Option, none,
  some, if◌then◌else◌, ltb, length, take,
}
use as_platform.Base.Dict.{Dict, insert, keys}

-- The calls of `redis.Redis` that the worker makes; `scan` is the list of `scan_iter`.
pub record RedisClient (E : Type 0) : Type 1 where
  pub State : Type 0
  pub get : String → State → Reply E (Option String) × State
  pub set : String → String → State → Reply E (Unit {0}) × State
  pub scan : String → State → Reply E (List String) × State
  pub idletime : String → State → Reply E (Option ℕ) × State
  pub delete : String → State → Reply E (Unit {0}) × State

pub record Json (E V : Type 0) : Type 0 where
  pub dumps : V → Reply E String
  pub loads : String → Reply E V

pub data Op : Type 0 where
  read write trim : Op

-- `_RedisWorkItem`: `is_done` is its event.
pub record WorkItem (E V : Type 0) : Type 0 where
  pub op : Op
  pub key : String
  pub stored : Option String
  pub limit : Option ℕ
  pub is_done : Bool
  pub result : Option V
  pub error : Option E

module _ {E V : Type 0} where
  unfoldable pub work_item : Op → String → Option String → Option ℕ → WorkItem E V
  work_item op key stored limit = record {
    op = op;
    key = key;
    stored = stored;
    limit = limit;
    is_done = false;
    result = none;
    error = none;
  }

  -- What the caller gets once it stops waiting: the worker's exception, or the result of the moment.
  pub settle : WorkItem E V → Reply E (Option V)
  settle item = elim item.error [ none ↦ value item.result | some e ↦ failed e ]

  -- The items of the three calls. `write` serialises before it enqueues.
  unfoldable read_item : String → WorkItem E V
  unfolding work_item
  read_item key = work_item read key none none

  unfoldable write_item : Json E V → String → V → Reply E (WorkItem E V)
  unfolding work_item
  write_item json key v = elim (json.dumps v) [
    | value text ↦ value (work_item write key (some text) none)
    | failed e ↦ failed e
  ]

  unfoldable trim_item : String → ℕ → WorkItem E V
  unfolding work_item
  trim_item prefix limit = work_item trim prefix none (some limit)

-- `item.limit or 0`
unfoldable pub or_zero : Option ℕ → ℕ
or_zero none = 0
or_zero (some n) = n

-- `sorted(items, key=idle, reverse=True)`: the longest idle first, equal ones in their order.
unfoldable pub place : String × ℕ → Dict ℕ → Dict ℕ
place x [] = x ∷ []
place x (y ∷ ys) = if ltb x.1 y.1 then y ∷ place x ys else x ∷ y ∷ ys

unfoldable pub sort_idle : Dict ℕ → Dict ℕ
unfolding place
sort_idle [] = []
sort_idle (x ∷ xs) = place x (sort_idle xs)

-- Which keys go: as many as the scan counted above the limit, the longest idle first.
unfoldable pub victims : List String → ℕ → Dict ℕ → List String
unfolding sort_idle keys
victims found limit times = keys (take (length found - limit) (sort_idle times))

module _ {E : Type 0} (client : RedisClient E) where
  open client use {State, get, set, scan, idletime, delete}

  -- `for k in keys: idle_times[k] = …`, from the times found so far
  unfoldable idle_times : List String → Dict ℕ → State → Reply E (Dict ℕ) × State
  unfolding insert or_zero
  idle_times [] times s = (value times, s)
  idle_times (k ∷ ks) times s =
      let (r, s') = idletime k s in
      elim r [ value t ↦ idle_times ks (insert k (or_zero t) times) s' | failed e ↦ (failed e, s') ]

  unfoldable delete_all : List String → State → Reply E (Unit {0}) × State
  delete_all [] s = (value tt, s)
  delete_all (k ∷ ks) s =
      let (r, s') = delete k s in elim r [ value _ ↦ delete_all ks s' | failed e ↦ (failed e, s') ]

  unfoldable evict_from : List String → ℕ → Reply E (Dict ℕ) × State → Reply E (Unit {0}) × State
  unfolding victims delete_all
  evict_from found limit (value times, s) = delete_all (victims found limit times) s
  evict_from found limit (failed e, s) = (failed e, s)

  unfoldable evict_found : ℕ → Reply E (List String) × State → Reply E (Unit {0}) × State
  unfolding idle_times evict_from
  evict_found limit (failed e, s) = (failed e, s)
  evict_found limit (value found, s) =
      if ltb limit (length found)
      then evict_from found limit (idle_times found [] s)
      else (value tt, s)

  -- The `trim` branch of the worker.
  pub trim_keys : String → ℕ → State → Reply E (Unit {0}) × State
  unfolding evict_found
  trim_keys prefix limit s = evict_found limit (scan (prefix <> "*") s)

  module _ {V : Type 0} (json : Json E V) where
    -- `json.loads(raw) if raw is not None else None`
    unfoldable pub loaded : Reply E (Option String) → Reply E (Option V)
    loaded (failed e) = failed e
    loaded (value none) = value none
    loaded (value (some raw)) = elim (json.loads raw) [
      | value v ↦ value (some v)
      | failed e ↦ failed e
    ]

    -- `except Exception as exc: item.error = exc` and `finally: item.done()`
    unfoldable finished : WorkItem E V → Reply E (Option V) × State → WorkItem E V × State
    finished item (value r, s) = (record item { result = r; is_done = true }, s)
    finished item (failed e, s) = (record item { error = some e; is_done = true }, s)

    -- A result that the worker does not write.
    abbrev unit_reply : Reply E (Unit {0}) × State → Reply E (Option V) × State
    unit_reply (value _, s) = (value none, s)
    unit_reply (failed e, s) = (failed e, s)

    -- `self._client.set(item.key, item.value)`: the item of a `write` always has a text, by `write_item`.
    unfoldable store_item : String → Option String → State → Reply E (Unit {0}) × State
    store_item key none s = (value tt, s)
    store_item key (some text) s = set key text s

    abbrev load_reply : Reply E (Option String) × State → Reply E (Option V) × State
    load_reply (r, s) = (loaded r, s)

    unfoldable pub perform : Op → WorkItem E V → State → Reply E (Option V) × State
    unfolding loaded store_item trim_keys
    perform read item s = load_reply (get item.key s)
    perform write item s = unit_reply (store_item item.key item.stored s)
    perform trim item s = unit_reply (trim_keys item.key (or_zero item.limit) s)

    -- One round of the worker, on the item that it took.
    unfoldable pub process : WorkItem E V → State → WorkItem E V × State
    unfolding finished perform
    process item s = finished item (perform item.op item s)
