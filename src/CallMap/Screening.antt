-- ===== src/CallMap/Screening.antt =====
-- Which requests become calls, and what a new call starts with.
use mathlib.Core.List.{append_assoc}
use as_platform.Base.{
  ℕ, suc, ◌+◌, ◌<◌, ◌≡◌, ◌≢◌, ◌⊎◌, inl, inr, refl, sym, subst, true, false, ◌==◌, String, [], ◌∷◌,
  ◌++◌, Option, none, some, arith, All, Bool-cases, Option-cases, str_dec, if_pos, if_neg,
}
use as_platform.Base.Dict.{keys}
use as_platform.Metrics.{record_error, record_call_started, set_peer_status}
use as_platform.World.{
  State, Result, ok, raised, None, ◌>>◌, World, Env, Controller, Request, SippyCall, clash,
  log_event, trace,
}
use as_platform.CallController.{
  source_address, source_peer, log_keywords, log_with, note, new_ua, with_identity, local_contact,
  pinned, option_or, capture_trunk_request,
}
use as_platform.CallController
use as_platform.CallController.Attempt.{Returns, Returns-mono}
use as_platform.CallController.Steps.{IsValid, Valid-at, IsLeg, Routed, Below}
use as_platform.CallMap.{
  CallMap, response, handed, Outcome, answered, is_allowed_peer, reject_peer, new_call,
  recv_request, configured_next_hop, remembered,
}

-- No field that the application adds to the log of a new INVITE is spelled like an argument.
abbrev pub IsTrunkLoggable : Env → Request → Type 0
IsTrunkLoggable env request =
    clash (log_keywords ++ "method" ∷ []) (env.inbound_fields request) ≡ false

-- The answering UA is made, told who this AS is, and handed the request under the AS's identity.
abbrev pub Opened : Request → State → State → Type 0
Opened request s t =
    let config = s.ctl.global_config in
    (t.ctl ≡ record s.ctl {
      call_id = request.call_id;
      trunk_peer = source_peer request;
      ua_a = some s.world.next_ua;
      trunk_request = some request;
    })
    × (t.world.sippy
        ≡ s.world.sippy
          ++ SippyCall.new_ua s.world.next_ua none
            ∷ SippyCall.set_local s.world.next_ua (option_or config.sip_uaname "")
                (local_contact config s.world.sip_conf)
            ∷ SippyCall.recv_request s.world.next_ua request (pinned config s.world.sip_conf)
            ∷ [])
    × (t.world.sip_conf ≡ s.world.sip_conf)
    × (t.world.metrics.calls_total ≡ s.world.metrics.calls_total + 1)
    × (t.world.armed ≡ s.world.armed)
    × (t.world.next_ua ≡ suc s.world.next_ua)
    × (t.world.next_timer ≡ s.world.next_timer)

open_lem :
    (env : Env) (request : Request) (s : State)
    → IsTrunkLoggable env request
    → Returns
        (λ _. Opened request s)
        ((do capture_trunk_request request; CallController.recv_request env request) s)
unfolding capture_trunk_request CallController.recv_request note log_with new_ua with_identity trace
    log_event record_call_started set_peer_status keys
open_lem env request s h = rw h (refl, simp append_assoc, refl, refl, refl, refl, refl)

-- What a refused request leaves: the response that is sent, the calls and sippy as they were.
abbrev pub Refused : ℕ → CallMap → World → Outcome → Type 0
Refused code m w o =
    (reason : String) × (v : World) × (o ≡ answered (response code reason) m v)
    × (v.sippy ≡ w.sippy)
    × (v.armed ≡ w.armed)
    × (v.next_ua ≡ w.next_ua)
    × (v.next_timer ≡ w.next_timer)
    × (v.metrics.calls_total ≡ w.metrics.calls_total)

-- And what an accepted one leaves: the controller that the application built, at the end of the
-- calls, with its answering leg.
abbrev pub Accepted :
    (Option (String × ℕ) → Controller) → Request → CallMap → World → Outcome → Type 0
Accepted build request m w o =
    (s : State) × (o
      ≡ answered handed (record m { controllers = m.controllers ++ s.ctl ∷ [] }) s.world)
    × Opened request (record { world = w; ctl = build m.global_config.nh_addr }) s

-- The four ends that a request on the trunk can come to, and what each rests on.
abbrev pub Screened :
    (Option (String × ℕ) → Controller) → Request → CallMap → World → Outcome → Type 0
Screened build request m w o =
    ((is_allowed_peer (source_address request) m.allowed_peers ≡ false) × Refused 403 m w o)
    ⊎ (((is_allowed_peer (source_address request) m.allowed_peers ≡ true)
          × (tag : String) × (request.to_tag ≡ some tag)
          × Refused 481 m w o)
        ⊎ (((is_allowed_peer (source_address request) m.allowed_peers ≡ true)
              × (request.to_tag ≡ none)
              × (request.method ≢ "INVITE")
              × Refused 501 m w o)
            ⊎ ((is_allowed_peer (source_address request) m.allowed_peers ≡ true)
                × (request.to_tag ≡ none)
                × (request.method ≡ "INVITE")
                × Accepted build request m w o)))

new_call-Accepted :
    (env : Env) (build : Option (String × ℕ) → Controller) (request : Request) (m : CallMap)
    (w : World)
    → IsTrunkLoggable env request
    → Accepted build request m w (new_call env build request m w)
unfolding new_call configured_next_hop
new_call-Accepted env build request m w h = go _ (open_lem env request _ h)
  where
    start : State
    start = record { world = w; ctl = build m.global_config.nh_addr }

    go :
        (r : Result None)
        → Returns (λ _. Opened request start) r
        → Accepted build request m w (remembered m r)
    go (ok _ s) o = (s, refl, o)
    go (raised e s) o = absurd o

reject_peer-Refused :
    (env : Env) (request : Request) (m : CallMap) (w : World)
    → Refused 403 m w (answered (response 403 "Forbidden") m (reject_peer env request w))
unfolding reject_peer trace log_event record_error
reject_peer-Refused env request m w = ("Forbidden", _, refl, refl, refl, refl, refl, refl)

-- Every request comes to one of four ends. From an address that is not allowed: 403. With a tag in
-- its To header: 481. With another method than INVITE: 501. Otherwise one controller is remembered,
-- at the end of the calls, and its answering leg is handed the request under the AS's identity. The
-- three refusals remember no call, count none and ask nothing of sippy. The application's fields for
-- the log must not be spelled like the log call's own.
pub recv_request-Screened :
    (env : Env) (build : Option (String × ℕ) → Controller) (request : Request) (m : CallMap)
    (w : World)
    → IsTrunkLoggable env request
    → Screened build request m w (recv_request env build request m w)
unfolding recv_request
recv_request-Screened env build request m w h =
    elim (Bool-cases (is_allowed_peer (source_address request) m.allowed_peers)) [
      | inl allowed ↦ elim (Option-cases request.to_tag) [
        | inl fresh ↦ elim (str_dec request.method "INVITE") [
          | yes invite ↦
              let same : (request.method == "INVITE") ≡ true =
                if_pos (str_dec request.method "INVITE") invite true false in
              let e : recv_request env build request m w ≡ new_call env build request m w =
                simp (allowed, fresh, same) in
              subst (Screened build request m w) (sym e) (
                inr (inr (inr (allowed, fresh, invite, new_call-Accepted env build request m w h))))
          | no another ↦
              let differs : (request.method == "INVITE") ≡ false =
                if_neg (str_dec request.method "INVITE") another true false in
              let e : recv_request env build request m w
                  ≡ answered (response 501 "Not Implemented") m w =
                simp (allowed, fresh, differs) in
              subst (Screened build request m w) (sym e) (
                inr
                  (inr (inl (allowed, fresh, another, (_, w, refl, refl, refl, refl, refl, refl)))))
        ]
        | inr (tag, tagged) ↦
            let e : recv_request env build request m w
                ≡ answered (response 481 "Call Leg/Transaction Does Not Exist") m w =
              simp (allowed, tagged) in
            subst (Screened build request m w) (sym e)
              (inr (inl (allowed, tag, tagged, (_, w, refl, refl, refl, refl, refl, refl))))
      ]
      | inr strange ↦
          let e : recv_request env build request m w
              ≡ answered (response 403 "Forbidden") m (reject_peer env request w) =
            simp strange in
          subst (Screened build request m w) (sym e)
            (inl (strange, reject_peer-Refused env request m w))
    ]

-- What `_build_controller` has to return: a controller that has no leg and no timer yet.
abbrev pub IsFresh : Controller → Type 0
IsFresh c = (c.ua_o ≡ none) × (c.failover_hops ≡ []) × (c.no_answer_timer ≡ none)

pub Opened-IsValid :
    (request : Request) (s t : State)
    → IsFresh s.ctl
    → All (λ x. x < s.world.next_timer) s.world.armed
    → Opened request s t
    → IsValid t
Opened-IsValid request s t (fresh, hops, held) waiting (c, _, _, _, armed, ua, timer) =
    Valid-at t c ua timer armed (record {
      trunk = (s.world.next_ua, refl, omega arith);
      leg = subst (λ leg. IsLeg (some s.world.next_ua) leg (suc s.world.next_ua)) (sym fresh) tt;
      routed =
          subst
            (λ leg. Routed leg (record s.ctl {
              call_id = request.call_id;
              trunk_peer = source_peer request;
              ua_a = some s.world.next_ua;
              trunk_request = some request;
            }))
            (sym fresh) hops;
      held = subst (Below s.world.next_timer) (sym held) tt;
      waiting = waiting;
    })

-- A controller that has no leg and no timer yet is in a valid state once it has handled the request
-- that opens its call, if every armed timer is one that has been handed out and the application's
-- fields for the log are not spelled like the log call's own. Handling it raises nothing.
new_call-IsValid :
    (env : Env) (request : Request) (s : State)
    → IsFresh s.ctl
    → All (λ x. x < s.world.next_timer) s.world.armed
    → IsTrunkLoggable env request
    → Returns
        (λ _. IsValid)
        ((do capture_trunk_request request; CallController.recv_request env request) s)
new_call-IsValid env request s fresh waiting h =
    Returns-mono _ _ (open_lem env request s h)
      (λ _ t o. Opened-IsValid request s t fresh waiting o)
