-- ===== src/CallController/Helpers.antt =====
-- The helpers of call_controller.py: the identity, the contact, and what events and hops are called.
use as_platform.Base.{
  ℕ, suc, ◌<>◌, Bool, false, String, List, [], ◌∷◌, ◌++◌, Option, none, some, eqb, not, keep,
  if◌then◌else◌, Value, text,
}
use as_platform.Base.Dict.{Dict, has, insert, update, keys}
use as_platform.Base.Text.{str, strip}
use as_platform.World.{
  M, None, Result, ok, raised, ◌>>=◌, ◌>>◌, pure, raise, world, on_world, emit, clash, log_event,
  type_error, World, Env, Level, CcEvent, try_event, ring, connect, fail, disconnect,
  update as session_update, other, Response, Request, NextHop, SippyCall, SipConf, Controller,
  GlobalConfig,
}

abbrev pub inbound : String
inbound = "in"

abbrev pub outbound : String
outbound = "out"

abbrev pub internal : String
internal = "internal"

abbrev pub leg_trunk : String
leg_trunk = "trunk"

abbrev pub leg_next_hop : String
leg_next_hop = "next_hop"

abbrev pub unknown_hop_key : String
unknown_hop_key = "next_hop"

-- 3.0 seconds
abbrev pub default_next_hop_expire : ℕ
default_next_hop_expire = 3000

-- `config.get(key, default)`
abbrev pub option_or {ℓ} : {A : Type ℓ} → Option A → A → A
option_or none d = d
option_or (some a) d = a

-- The identity of this AS, over what `SipConf` has.
unfoldable pub pinned : GlobalConfig → SipConf → SipConf
pinned config conf = record {
  my_address = option_or config.sip_address conf.my_address;
  my_port = option_or config.sip_port conf.my_port;
  my_uaname = option_or config.sip_uaname conf.my_uaname;
}

-- The `finally` of `_sip_identity`.
abbrev restore : {A : Type 0} → SipConf → Result A → Result A
restore saved (ok a s) = ok a (record s { world = record s.world { sip_conf = saved } })
restore saved (raised e s) = raised e (record s { world = record s.world { sip_conf = saved } })

-- `with _sip_identity(config): body`
unfoldable pub with_identity : {A : Type 0} → GlobalConfig → M A → M A
with_identity config body s =
    restore s.world.sip_conf
      (body (record s { world = record s.world { sip_conf = pinned config s.world.sip_conf } }))

-- One call of sippy under the identity of the moment.
abbrev pub call_sippy : (SipConf → SippyCall) → M None
call_sippy f = do w ← world; on_world (emit (f w.sip_conf))

-- `_local_contact`: the address and the port of the contact.
unfoldable pub local_contact : GlobalConfig → SipConf → String × ℕ
local_contact config conf =
    (option_or config.sip_address conf.my_address, option_or config.sip_port conf.my_port)

unfoldable pub source_address : Request → String
source_address request = elim request.source [ none ↦ "-" | some (address, port) ↦ address ]

unfoldable pub source_peer : Request → String
source_peer request = elim request.source [
  | none ↦ "-"
  | some (address, port) ↦ address <> ":" <> str port
]

-- `_describe_event`
abbrev describe_response : Option Response → String × String → String × String
describe_response none default = default
describe_response (some r) default = (str r.code, strip (str r.code <> " " <> r.reason))

unfoldable pub describe_event : CcEvent → String × String
describe_event (try_event d) = ("INVITE", "invite received")
describe_event (ring r) = describe_response r ("180", "ringing")
describe_event (connect r) = describe_response r ("180", "ringing")
describe_event (fail r) = describe_response r ("500", "call failed")
describe_event disconnect = ("BYE", "call released")
describe_event session_update = ("INVITE", "session update")
describe_event (other name) = (name, "call control event")

-- `if key in filled: filled[key] = value`
abbrev fill : String → String → Dict Value → Dict Value
fill key value fields = if has key fields then insert key (text value) fields else fields

-- `_with_attempt_fields`
unfoldable pub with_attempt_fields : Dict Value → NextHop → String → Dict Value
with_attempt_fields fields hop called =
    fill "next_hop" hop.name (fill "called_number" called fields)

-- `_next_hop_peer`
unfoldable pub next_hop_peer : Controller → String
next_hop_peer c = elim c.next_hop [ none ↦ "-" | some (address, port) ↦ address <> ":" <> str port ]

-- `_peer_status_key`, the default
unfoldable pub peer_status_key : NextHop → String
peer_status_key hop = hop.name <> ":" <> hop.address <> ":" <> str hop.port

-- `hop.name if hop else ""`, which is also the default of `_no_answer_hop_label`
unfoldable pub hop_name : Option NextHop → String
hop_name none = ""
hop_name (some hop) = hop.name

-- `ua is not None and bool(ua.isConnected())`
unfoldable pub is_connected : Env → Option ℕ → Bool
is_connected env none = false
is_connected env (some ua) = env.connected ua

-- `ua is leg`
unfoldable pub is_ua : ℕ → Option ℕ → Bool
is_ua ua none = false
is_ua ua (some leg) = eqb ua leg

unfoldable pub new_ua : Option (String × ℕ) → M ℕ
new_ua next_hop = do
  w ← world
  on_world (λ w. emit (SippyCall.new_ua w.next_ua next_hop) (record w { next_ua = suc w.next_ua }))
  pure w.next_ua

unfoldable pub start_timer : ℕ → M ℕ
start_timer duration = do
  w ← world
  on_world (λ w.
      emit (SippyCall.start_timer w.next_timer duration)
        (record w { next_timer = suc w.next_timer; armed = w.armed ++ w.next_timer ∷ [] }))
  pure w.next_timer

abbrev pub disarm : ℕ → World → World
disarm timer w = record w { armed = keep (λ t. not (eqb t timer)) w.armed }

unfoldable pub cancel_timer : ℕ → World → World
cancel_timer timer w = emit (SippyCall.cancel_timer timer) (disarm timer w)

-- The parameter names of `log_event`, with `method`, which every caller here gives.
abbrev pub log_keywords : List String
log_keywords = "logger" ∷ "level" ∷ "event" ∷ "call_id" ∷ "direction" ∷ "peer" ∷ "method" ∷ []

-- `log_event(…, **shown, **fields)`
unfoldable pub log_with :
    Env → Level → String → String → String → String → Dict Value → Dict Value → M None
log_with env level event call_id direction peer shown fields =
    if clash (log_keywords ++ keys shown) fields
    then raise type_error
    else on_world (log_event env level event call_id direction peer (update shown fields))
