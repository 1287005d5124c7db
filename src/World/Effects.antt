-- ===== src/World/Effects.antt =====
-- Statements as state passing with exceptions. What was written before a raise stays written.
use as_platform.Base.{
  Bool, String, List, [], ◌∷◌, ◌++◌, Option, none, some, ◌==◌, ◌||◌, if◌then◌else◌, Value, text,
  false,
}
use as_platform.Base.Dict.{Dict, has, update}
use as_platform.Metrics.{MetricsRegistry}
use as_platform.Tracing.{record_event}
use as_platform.World.Types.{World, Controller, Level, SippyCall, Env}

pub data Exn : Type 0 where
  attribute_error index_error assertion_error type_error : Exn

pub record State : Type 0 where
  pub world : World
  pub ctl : Controller

pub data Result (A : Type 0) : Type 0 where
  ok : A → State → Result A
  raised : Exn → State → Result A

abbrev pub M : Type 0 → Type 0
M A = State → Result A

abbrev pub None : Type 0
None = Unit {0}

infixl 5 ◌>>=◌ ◌>>◌
abbrev pub ◌>>=◌ : {A B : Type 0} → M A → (A → M B) → M B
◌>>=◌ m f s = elim (m s) [ ok a s' ↦ f a s' | raised e s' ↦ raised e s' ]

abbrev pub ◌>>◌ : {A B : Type 0} → M A → M B → M B
m >> k = m >>= λ _. k

abbrev pub pure : {A : Type 0} → A → M A
pure a s = ok a s

abbrev pub raise : {A : Type 0} → Exn → M A
raise e s = raised e s

-- An attribute of `None`.
abbrev pub or_raise : {A : Type 0} → Exn → Option A → M A
or_raise e none = raise e
or_raise e (some a) = pure a

abbrev pub self : M Controller
self s = ok s.ctl s

abbrev pub world : M World
world s = ok s.world s

abbrev pub on_self : (Controller → Controller) → M None
on_self f s = ok tt (record s { ctl = f s.ctl })

abbrev pub on_world : (World → World) → M None
on_world f s = ok tt (record s { world = f s.world })

abbrev pub on_metrics : (MetricsRegistry → MetricsRegistry) → M None
on_metrics f = on_world (λ w. record w { metrics = f w.metrics })

-- One call of sippy.
abbrev pub emit : SippyCall → World → World
emit c w = record w { sippy = w.sippy ++ c ∷ [] }

-- `dict(f, **g)` as the arguments of one call: a keyword that is given twice is a `TypeError`.
unfoldable pub clash : List String → Dict Value → Bool
unfolding has
clash [] fields = false
clash (k ∷ ks) fields = has k fields || clash ks fields

-- `log_event(logger, level, event, call_id=…, direction=…, peer=…, **extra)`
unfoldable or_unknown : String → String
or_unknown s = if s == "" then "-" else s

unfoldable pub log_event :
    Env → Level → String → String → String → String → Dict Value → World → World
unfolding update or_unknown
log_event env level event call_id direction peer extra w = record w {
  log =
      if env.enabled level
      then w.log
        ++ record {
          level = level;
          event = event;
          extra =
              update
                (("call_id", text (or_unknown call_id))
                  ∷ ("direction", text direction)
                  ∷ ("peer", text (or_unknown peer))
                  ∷ [])
                extra;
        }
          ∷ []
      else w.log;
}

-- `tracer.record(…)` at the world's clock.
unfoldable pub trace :
    String → String → String → String → String → Option Value → Dict Value → World → World
trace call_id direction method summary peer rule_id attributes w = record w {
  tracer =
      record_event
        (record {
          timestamp = w.now;
          call_id = call_id;
          direction = direction;
          method = method;
          summary = summary;
          peer = peer;
          rule_id = rule_id;
          attributes = attributes;
        })
        w.tracer;
}
