-- ===== src/Logging/Configure.antt =====
-- observability/logging.py, `configure_logging`: the handlers of the root logger. A handler is known by
-- its number. How `str.upper` writes a level, and which levels `logging` knows, are parameters.
use as_platform.Base.{
  ℕ, suc, ◌≡◌, refl, Bool, true, false, String, List, [], ◌∷◌, ◌++◌, Option, none, some, arith, eqb,
  if◌then◌else◌,
}

-- `StructuredFormatter()`, or `logging.Formatter` with its format.
pub data Formatter : Type 0 where
  structured_formatter : Formatter
  line_formatter : String → Formatter

-- A `StreamHandler` on the standard output.
pub record Handler : Type 0 where
  pub number : ℕ
  pub formatter : Formatter

pub record RootLogger : Type 0 where
  pub handlers : List Handler
  pub level : ℕ
  pub next : ℕ

-- `root.removeHandler(previous)`
unfoldable remove_handler : ℕ → List Handler → List Handler
remove_handler n [] = []
remove_handler n (h ∷ hs) =
    let rest = remove_handler n hs in if eqb h.number n then hs else h ∷ rest

-- `for previous in list(root.handlers): …`
unfoldable remove_all : List Handler → List Handler → List Handler
unfolding remove_handler
remove_all [] hs = hs
remove_all (previous ∷ rest) hs = remove_all rest (remove_handler previous.number hs)

-- `root.setLevel(…)`: whether the level is known, and the logger.
unfoldable set_level : Option ℕ → RootLogger → Bool × RootLogger
set_level none root = (false, root)
set_level (some level) root = (true, record root { level = level })

abbrev chosen_formatter : Bool → Formatter
chosen_formatter true = structured_formatter
chosen_formatter false = line_formatter "%(asctime)s %(levelname)s %(module)s %(message)s"

module _ (upper : String → String) (level_of : String → Option ℕ) where
  -- Whether it returns, and the logger; it raises when the level is unknown.
  unfoldable configure_logging : String → Bool → RootLogger → Bool × RootLogger
  unfolding remove_all set_level
  configure_logging level structured root = set_level (level_of (upper level)) (record {
    handlers =
        remove_all root.handlers root.handlers
        ++ record { number = root.next; formatter = chosen_formatter structured } ∷ [];
    level = root.level;
    next = suc root.next;
  })

  remove_all-none : (hs : List Handler) → remove_all hs hs ≡ []
  unfolding remove_all remove_handler
  remove_all-none [] = refl
  remove_all-none (h ∷ hs) = rw (eqb_refl h.number) (remove_all-none hs)
    where
      eqb_refl : (n : ℕ) → eqb n n ≡ true
      eqb_refl n = ground arith

  -- Whatever handlers there were, also when the level is unknown and it raises, the one that it made
  -- is the only one left.
  configure_logging-handlers :
      (level : String) (structured : Bool) (root : RootLogger)
      → (configure_logging level structured root).1.handlers
        ≡ record { number = root.next; formatter = chosen_formatter structured } ∷ []
  unfolding configure_logging set_level
  configure_logging-handlers level structured root = go (level_of (upper level))
    where
      go :
          (known : Option ℕ)
          → (set_level known (record {
            handlers =
                remove_all root.handlers root.handlers
                ++ record { number = root.next; formatter = chosen_formatter structured } ∷ [];
            level = root.level;
            next = suc root.next;
          })).1.handlers
            ≡ record { number = root.next; formatter = chosen_formatter structured } ∷ []
      go none = rw (remove_all-none root.handlers) refl
      go (some n) = rw (remove_all-none root.handlers) refl
