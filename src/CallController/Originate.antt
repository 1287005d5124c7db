-- ===== src/CallController/Originate.antt =====
-- call_controller.py: the answering leg of a call, the attempts towards the next hops and the timer
-- that watches them.
use as_platform.Base.{
  ℕ, ◌<>◌, Bool, true, false, String, List, [], ◌∷◌, Option, none, some, Value, text,
}
use as_platform.Base.Dict.{Dict, update}
use as_platform.Errors.{error_code, peer_unreachable}
use as_platform.Metrics.{record_call_started, set_peer_status, reachable, unreachable}
use as_platform.World.{
  M, None, ◌>>=◌, ◌>>◌, pure, or_raise, self, world, on_self, on_world, on_metrics, emit, log_event,
  trace, attribute_error, Env, CcEvent, try_event, Request, NextHop, PolicyDecision, SippyCall,
  debug, info, warning,
}
use as_platform.CallController.Helpers.{
  inbound, outbound, internal, leg_trunk, leg_next_hop, unknown_hop_key, default_next_hop_expire,
  option_or, with_identity, call_sippy, local_contact, source_peer, with_attempt_fields,
  next_hop_peer, peer_status_key, hop_name, new_ua, start_timer, cancel_timer, log_with,
}

-- `_record`
unfoldable pub note : Env → String → String → String → String → String → Dict Value → M None
note env direction leg method summary peer attributes = do
  c ← self
  on_world (
      trace c.call_id direction method summary peer none
        (update (("leg", text leg) ∷ []) attributes))
  on_world (
      log_event env debug summary c.call_id direction peer
        (("method", text method) ∷ ("leg", text leg) ∷ []))

-- `_cancel_no_answer_timer`, which is also `dispose`
unfoldable pub cancel_held : Option ℕ → M None
cancel_held none = pure tt
cancel_held (some timer) = do
  on_world (cancel_timer timer)
  on_self (λ c. record c { no_answer_timer = none })

unfoldable pub cancel_no_answer_timer : M None
cancel_no_answer_timer = do c ← self; cancel_held c.no_answer_timer

unfoldable pub dispose : M None
dispose = cancel_no_answer_timer

-- `recv_request`: the answering leg of a new call.
unfoldable pub recv_request : Env → Request → M None
recv_request env request = do
  on_self (λ c. record c { call_id = request.call_id; trunk_peer = source_peer request })
  c ← self
  let fields = env.inbound_fields request
  on_metrics record_call_started
  on_metrics (set_peer_status (c.trunk_peer <> ":trunk") reachable)
  note env inbound leg_trunk "INVITE" "invite received from the trunk" c.trunk_peer fields
  log_with env info "invite received on the trunk" c.call_id inbound c.trunk_peer
      (("method", text "INVITE") ∷ []) fields
  ua ← new_ua none
  on_self (λ c. record c { ua_a = some ua })
  w ← world
  on_world (
      emit (
        SippyCall.set_local ua (option_or c.global_config.sip_uaname "")
          (local_contact c.global_config w.sip_conf)))
  with_identity c.global_config (call_sippy (SippyCall.recv_request ua request))

unfoldable pub capture_trunk_request : Request → M None
capture_trunk_request request = on_self (λ c. record c { trunk_request = some request })

-- `_relay_vocabulary`
unfoldable pub relay_vocabulary :
    Option PolicyDecision → NextHop → String → String × Dict Value × Dict Value
relay_vocabulary none hop called = ("", [], [])
relay_vocabulary (some p) hop called = (
  p.relay_log_message,
  with_attempt_fields p.attributes hop called,
  with_attempt_fields p.relay_log_fields hop called,
)

-- `_originate_towards`
unfoldable pub originate_towards : Env → NextHop → M None
originate_towards env hop = do
  on_self (λ c. record c { serving_hop = some hop; next_hop = some (hop.address, hop.port) })
  c ← self
  ua ← new_ua c.next_hop
  on_self (λ c. record c { ua_o = some ua })
  w ← world
  on_world (
      emit (
        SippyCall.set_local ua (option_or c.global_config.sip_uaname "")
          (local_contact c.global_config w.sip_conf)))
  timer ← start_timer (option_or c.global_config.next_hop_expire default_next_hop_expire)
  on_self (λ c. record c { no_answer_timer = some timer })
  pending ← or_raise attribute_error c.pending_event
  let words = relay_vocabulary c.policy hop pending.called
  on_metrics (set_peer_status (peer_status_key hop) reachable)
  note env outbound leg_next_hop "INVITE" words.0 (next_hop_peer c) words.1
  log_with env info words.0 c.call_id outbound (next_hop_peer c) (("method", text "INVITE") ∷ [])
      words.2
  with_identity c.global_config
      (call_sippy (λ conf. SippyCall.recv_event ua (try_event pending) conf))

-- `_try_failover`, on the hops that remain
unfoldable pub failed_key : Option NextHop → String
failed_key none = unknown_hop_key
failed_key (some hop) = peer_status_key hop

unfoldable pub start_failover : Env → List NextHop → M Bool
start_failover env [] = pure false
start_failover env (hop ∷ rest) = do
  c ← self
  on_metrics (set_peer_status (failed_key c.serving_hop) unreachable)
  on_self (λ c. record c { failover_hops = rest; ua_o = none })
  on_world (
      log_event env warning "next hop failed; trying failover hop" c.call_id internal "" (
        ("failed_hop", text (hop_name c.serving_hop))
        ∷ ("failover_hop", text hop.name)
        ∷ ("error_code", text (error_code peer_unreachable).code)
        ∷ []))
  originate_towards env hop
  pure true

unfoldable pub try_failover : Env → M Bool
try_failover env = do c ← self; start_failover env c.failover_hops

-- `self.uaA.recvEvent(event)`, where the leg exists
unfoldable pub tell : CcEvent → Option ℕ → M None
tell event none = pure tt
tell event (some ua) = call_sippy (SippyCall.recv_event ua event)

unfoldable pub tell_trunk : CcEvent → M None
tell_trunk event = do c ← self; tell event c.ua_a
