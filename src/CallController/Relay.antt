-- ===== src/CallController/Relay.antt =====
-- call_controller.py: the relay of events between the legs, and the no-answer callback.
use as_platform.Base.{
  ℕ, ◌<>◌, Bool, true, false, not, ◌&&◌, ◌==◌, String, [], ◌∷◌, Option, none, some, if◌then◌else◌,
  text,
}
use as_platform.Errors.{error_code, peer_unreachable}
use as_platform.Metrics.{
  CallDisposition, failed, completed, abandoned, record_call_disposition, disposition_value,
}
use as_platform.World.{
  M, None, ◌>>=◌, ◌>>◌, pure, raise, self, on_world, on_metrics, emit, log_event, attribute_error,
  Env, CcEvent, try_event, ring, connect, fail, disconnect, SippyCall, info, warning,
}
use as_platform.CallController.Helpers.{
  inbound, outbound, internal, leg_trunk, leg_next_hop, call_sippy, describe_event, next_hop_peer,
  hop_name, is_connected, is_ua, disarm,
}
use as_platform.CallController.Originate.{note, cancel_no_answer_timer, try_failover, tell_trunk}
use as_platform.CallController.Decision.{originate_outbound_leg}

-- `_record_disposition`
unfoldable pub disposition_of : Env → Option ℕ → CcEvent → CallDisposition
disposition_of env leg (fail r) = failed
disposition_of env leg _ = if is_connected env leg then completed else abandoned

unfoldable pub record_disposition : Env → CcEvent → M None
record_disposition env event = do
  c ← self
  let disposition = disposition_of env c.ua_a event
  on_metrics (record_call_disposition disposition)
  on_world (
      log_event env info "call finished" c.call_id internal ""
        (("disposition", text (disposition_value disposition)) ∷ []))

-- `isinstance(event, (CCEventRing, CCEventConnect))`
unfoldable pub answers : CcEvent → Bool
answers (ring r) = true
answers (connect r) = true
answers _ = false

-- `isinstance(event, (CCEventFail, CCEventDisconnect))`
unfoldable pub ends : CcEvent → Bool
ends (fail r) = true
ends disconnect = true
ends _ = false

-- `_relay_from_next_hop`, from the failure that no further hop takes up
unfoldable pub pass_to_trunk : Env → CcEvent → String → String → M None
pass_to_trunk env event method summary = do
  c ← self
  note env inbound leg_next_hop method (summary <> " on the next-hop leg") (next_hop_peer c) []
  if ends event then (do cancel_no_answer_timer; record_disposition env event) else pure tt
  tell_trunk event
  if answers event && not (method == "ACK")
      then note env outbound leg_trunk method (summary <> " relayed to the trunk leg") c.trunk_peer
          []
      else pure tt

-- `_relay_from_next_hop`, once a failover attempt has been started
unfoldable pub after_failover : Env → String → String → M None
after_failover env method summary = do
  cancel_no_answer_timer
  c ← self
  note env inbound leg_next_hop method (summary <> " on the next-hop leg; trying failover")
      (next_hop_peer c) (("failed_hop", text (hop_name c.serving_hop)) ∷ [])

unfoldable pub finish_relay : Env → CcEvent → Bool → M None
finish_relay env event tried =
    if tried
    then after_failover env (describe_event event).0 (describe_event event).1
    else pass_to_trunk env event (describe_event event).0 (describe_event event).1

unfoldable pub relay_from_next_hop : Env → CcEvent → M None
relay_from_next_hop env event = do
  if answers event then cancel_no_answer_timer else pure tt
  c ← self
  tried ← (if ends event && not (is_connected env c.ua_a) then try_failover env else pure false)
  finish_relay env event tried

-- `self.uaA.recvEvent(CCEventDisconnect())`
unfoldable pub tear_down : Option ℕ → M None
tear_down none = raise attribute_error
tear_down (some ua) = call_sippy (SippyCall.recv_event ua disconnect)

-- `_relay_from_trunk`, while there is no next-hop leg
unfoldable pub first_from_trunk : Env → CcEvent → M None
first_from_trunk env (try_event d) = originate_outbound_leg env d
first_from_trunk env _ = do c ← self; tear_down c.ua_a

unfoldable pub relay_on : Env → CcEvent → Option ℕ → M None
relay_on env event none = first_from_trunk env event
relay_on env event (some ua) = do
  c ← self
  note env inbound leg_trunk (describe_event event).0
      ((describe_event event).1 <> " on the trunk leg") c.trunk_peer []
  call_sippy (SippyCall.recv_event ua event)

unfoldable pub relay_from_trunk : Env → CcEvent → M None
relay_from_trunk env event = do c ← self; relay_on env event c.ua_o

-- `recv_event`: sippy's event hook
unfoldable pub recv_event : Env → CcEvent → ℕ → M None
recv_event env event ua = do
  c ← self
  if is_ua ua c.ua_a
      then relay_from_trunk env event
      else if is_ua ua c.ua_o
      then relay_from_next_hop env event
      else pure tt

-- `_on_next_hop_no_answer`. The event that sippy emits for the `disconnect` is a further input.
unfoldable pub give_up_on : Env → Option ℕ → M None
give_up_on env none = pure tt
give_up_on env (some ua) = do
  c ← self
  if is_connected env c.ua_a then pure tt else do
    on_world (
        log_event env warning "next hop did not answer in time" c.call_id internal "" (
          ("next_hop", text (hop_name c.serving_hop))
          ∷ ("error_code", text (error_code peer_unreachable).code)
          ∷ []))
    on_world (emit (SippyCall.disconnect_ua ua))

unfoldable pub on_next_hop_no_answer : Env → M None
on_next_hop_no_answer env = do c ← self; give_up_on env c.ua_o

-- A timer of the event loop that fires once: it is disarmed, and its callback runs.
unfoldable pub timer_fires : Env → ℕ → M None
timer_fires env timer = do on_world (disarm timer); on_next_hop_no_answer env
