-- ===== src/Tests/Routes.antt =====
-- The theorems on Route entries and on the capacity levels, applied, and runs of both.
use Prim.Native.Char.{Char, code}
use mathlib.Core.Bool.{false≢true}
use text.Mathlib.TextEquality.{eq_iff}
use as_platform.Base.{
  zero, suc, List, ℕ, ◌-◌, ◌≡◌, ◌≢◌, refl, String, [], ◌∷◌, Option, none, some, true, false, leb,
  ◌&&◌, if◌then◌else◌, str_dec,
}
use as_platform.Capacity.{run}
use as_platform.Capacity.Gap.{Probe, measure_loop_gap}
use as_platform.Capacity.Workers.{WorkerEvent, call_done, wait_ends, takes_lock, observed}
use as_platform.Capacity.Workers.Results.{AllAccount, run-AllAccount}
use as_platform.RouteHeader.{copied, printed, body_text, parse_top_route_target}
use as_platform.Base.Text.{contains_code, strip}
use as_platform.Base.Text.Laws.{free_of}
use as_platform.RouteHeader.Entry.{entry, parse_top_route_target-entry}

abbrev decimal : Char → Option ℕ
decimal c = if leb 48 (code c) && leb (code c) 57 then some (code c - 48) else none

abbrev host : String
host = "10.0.0.1"

some_host : host ≢ ""
some_host p = false≢true ((eq_iff host "").1 p)

parse_top_route_target-entry_example :
    parse_top_route_target decimal
      (some (some (copied (entry "10.0.0.1" "lr>") ∷ printed "<sip:b:1>" ∷ [])))
      5060
    ≡ some ("10.0.0.1", 5060)
unfolding free_of contains_code body_text
parse_top_route_target-entry_example =
    parse_top_route_target-entry decimal "10.0.0.1" "lr>" (copied (entry "10.0.0.1" "lr>"))
      (printed "<sip:b:1>" ∷ []) 5060 refl refl some_host refl refl

user_and_port :
    parse_top_route_target decimal (some (some (printed "tel:1, < SIPS:as@h:5070;lr>" ∷ []))) 5060
    ≡ some ("h", 5070)
unfolding parse_top_route_target str_dec strip
user_and_port = refl

no_host :
    parse_top_route_target decimal (some (some (printed "<sip:user@>" ∷ []))) 5060
    ≡ some ("user", 5060)
unfolding parse_top_route_target str_dec strip
no_host = refl

-- At level 2 one call completes before its wait ends, and the other one after; both workers report. At
-- level 1 the worker is late.
abbrev schedule : ℕ → ℕ → List WorkerEvent
schedule n zero = []
schedule n (suc zero) = call_done 0 ∷ wait_ends 0 ∷ []
schedule n (suc (suc level)) =
    wait_ends 1 ∷ call_done 0 ∷ call_done 1 ∷ wait_ends 0 ∷ takes_lock 0 ∷ takes_lock 1 ∷ []

abbrev late_probe : Probe
late_probe = record {
  is_importable = true;
  is_refused = false;
  scheduled_at = 1000;
  waiting_from = 1001;
  runs_at = some 1003;
}

run-AllAccount_example :
    AllAccount schedule
      (λ n l. late_probe)
      0
      (2 ∷ 1 ∷ [])
      (run (observed schedule (λ n l. late_probe)) 0 (2 ∷ 1 ∷ []))
run-AllAccount_example = run-AllAccount schedule (λ n l. late_probe) 0 (2 ∷ 1 ∷ [])

-- The two results.
two_results :
    run (observed schedule (λ n l. late_probe)) 0 (2 ∷ 1 ∷ [])
    ≡ record { level = 2; completed = 1; timed_out = 1; loop_gap_ms = some 3 }
      ∷ record { level = 1; completed = 0; timed_out = 0; loop_gap_ms = some 3 }
      ∷ []
unfolding run observed measure_loop_gap
two_results = refl
