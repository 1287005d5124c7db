-- ===== src/CallMap.antt =====
-- call_controller.py, `BaseCallMap`: which requests on the trunk become calls, and the end of all
-- calls. `build` is the application's `_build_controller`.
pub mod Screening
pub mod Shutdown
pub mod Process
use as_platform.Base.{
  ℕ, ◌<>◌, Bool, true, false, not, ◌==◌, String, List, [], ◌∷◌, ◌++◌, Option, none, some,
  if◌then◌else◌, Value, text, contains,
}
use as_platform.Base.Dict.{update}
use as_platform.Errors.{AsError, as_error, as_log_fields, error_code, peer_not_allowed}
use as_platform.Metrics.{record_error}
use as_platform.World.{
  State, Result, ok, raised, Exn, M, None, ◌>>=◌, ◌>>◌, World, Env, Controller, Request,
  GlobalConfig, warning, log_event, trace,
}
use as_platform.CallController.{
  source_address, source_peer, inbound, leg_trunk, text_fields, capture_trunk_request,
  cancel_no_answer_timer,
}
use as_platform.CallController

pub record CallMap : Type 0 where
  pub global_config : GlobalConfig
  pub allowed_peers : List String
  pub controllers : List Controller

-- What sippy gets back: a response to send, or what the answering UA made of the request.
pub data Answer : Type 0 where
  response : ℕ → String → Answer
  handed : Answer

pub data Outcome : Type 0 where
  answered : Answer → CallMap → World → Outcome
  failed : Exn → CallMap → World → Outcome

unfoldable pub is_allowed_peer : String → List String → Bool
is_allowed_peer source allowed_peers = contains allowed_peers source

-- The error of `_reject_peer`.
unfoldable pub peer_error : Request → AsError
peer_error request =
    as_error (error_code peer_not_allowed)
      (some ("source address " <> source_address request <> " is not an allowed trunk peer")) none
      (("source", source_address request) ∷ ("sip_method", request.method) ∷ [])

-- `_reject_peer`. No field of this error is spelled like an argument of the log call.
unfoldable pub reject_peer : Env → Request → World → World
reject_peer env request w =
    let counted = record w {
      metrics = record_error (error_code peer_not_allowed).code w.metrics;
    } in
    let traced =
      trace request.call_id inbound request.method
        "403 forbidden: source is not an allowed trunk peer" (source_peer request) none
        (("leg", text leg_trunk) ∷ []) counted in
    log_event env warning "request rejected: source address is not an allowed trunk peer"
      request.call_id inbound (source_peer request)
      (update (("method", text request.method) ∷ [])
        (text_fields (as_log_fields (peer_error request))))
      traced

-- `_configured_next_hop`
unfoldable pub configured_next_hop : GlobalConfig → Option (String × ℕ)
configured_next_hop config = config.nh_addr

-- The map after the new controller has handled its request, at the end of the calls.
abbrev pub remembered : CallMap → Result None → Outcome
remembered m (ok _ s) =
    answered handed (record m { controllers = m.controllers ++ s.ctl ∷ [] }) s.world
remembered m (raised e s) =
    failed e (record m { controllers = m.controllers ++ s.ctl ∷ [] }) s.world

-- `_new_controller`, and the two calls of what it returns
unfoldable pub new_call :
    Env → (Option (String × ℕ) → Controller) → Request → CallMap → World → Outcome
new_call env build request m w = remembered m (
    (do capture_trunk_request request; CallController.recv_request env request)
      (record { world = w; ctl = build (configured_next_hop m.global_config) }))

unfoldable pub recv_request :
    Env → (Option (String × ℕ) → Controller) → Request → CallMap → World → Outcome
recv_request env build request m w =
    if not (is_allowed_peer (source_address request) m.allowed_peers)
    then answered (response 403 "Forbidden") m (reject_peer env request w)
    else elim request.to_tag [
      | some tag ↦ answered (response 481 "Call Leg/Transaction Does Not Exist") m w
      | none ↦
          if not (request.method == "INVITE")
          then answered (response 501 "Not Implemented") m w
          else new_call env build request m w
    ]

-- `for controller in self.controllers: controller.dispose()`. A `dispose` raises nothing, which
-- the result would show.
unfoldable pub dispose_each : List Controller → World → Option Exn × List Controller × World
dispose_each [] w = (none, [], w)
dispose_each (c ∷ cs) w = elim (CallController.dispose (record { world = w; ctl = c })) [
  | ok _ s ↦ (let (e, rest, end) = dispose_each cs s.world in (e, s.ctl ∷ rest, end))
  | raised e s ↦ (some e, s.ctl ∷ cs, s.world)
]

unfoldable pub dispose : CallMap → World → Option Exn × CallMap × World
dispose m w =
    let (e, cs, end) = dispose_each m.controllers w in (e, record m { controllers = cs }, end)
