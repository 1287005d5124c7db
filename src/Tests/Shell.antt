-- ===== src/Tests/Shell.antt =====
-- The theorems on the process shell, applied to a stack with the UDP transport.
use Prim.Native.Char.{Char, code}
use as_platform.Messages.{SipMessageRecorder}
use as_platform.Base.{
  true, false, Bool, leb, ◌&&◌, List, ◌-◌, drop, length, ℕ, ◌≡◌, String, [], ◌∷◌, ◌++◌, none, some,
  value,
}
use as_platform.SipAdapter.{TransactionManager}
use as_platform.Transport.{udp, UdpTransport}
use as_platform.Stack.{Stack, Hooks, start, stop, stop_transport}
use as_platform.Stack.Start.{Outcome, start-Outcome}
use as_platform.Stack.Stop.{Released, stop-Released}
use as_platform.Stack.Releases.{disposed, all_releases, call_releases}
use as_platform.Stack.Loop.{
  signal, poll, other, loop, new_shutdown, asked_by, last_signal, loop-Asked,
}
use as_platform.Messages.Capture.{history}
use as_platform.Stack.SipLogger.{
  build_sip_logger, nothing_given, sip_message_recorder, sippy_log, write_messages,
  write_messages-build_sip_logger,
}
use as_platform.Tests.{idle_world, config, trying, relaying}

abbrev idle_stack : Stack UdpTransport
idle_stack = record {
  sip_user_agent_name = "as";
  bound_log_message = "signalling stack bound";
  transport = record { address = "10.0.0.1"; port = 5060 };
  peer_address = "10.0.0.2";
  peer_port = 5060;
  allowed_peers = "10.0.0.9" ∷ [];
  api_address = "127.0.0.1";
  api_port = 8080;
  internal_api = none;
  shutdown_timer = none;
  reload_timer = none;
  transaction_manager = none;
  global_config = record {
    sip_address = none;
    sip_port = none;
    sip_uaname = none;
    next_hop_expire = none;
    nh_addr = none;
  };
  call_map = none;
  world = idle_world;
  releases = [];
}

abbrev manager : TransactionManager
manager = record {
  tclient = some (("t1", ("teA", some (record { ident = 9; pending = true })) ∷ []) ∷ []);
  tserver = none;
}

abbrev granting : Hooks String
granting = record {
  create_call_map =
      λ c. value (record { global_config = c; allowed_peers = "10.0.0.9" ∷ []; controllers = [] });
  new_manager = λ c. value manager;
  create_internal_api_server = λ address port. value 1;
  start_server = λ server. value tt;
}

start-Outcome_example :
    Outcome relaying
      (udp String)
      granting
      idle_stack
      (start relaying (udp String) granting idle_stack)
start-Outcome_example = start-Outcome relaying (udp String) granting idle_stack

-- A stack in its loop, with one call, one transaction and the API.
abbrev busy_stack : Stack UdpTransport
busy_stack = record idle_stack {
  internal_api = some 1;
  shutdown_timer = some 1;
  reload_timer = some 2;
  transaction_manager = some manager;
  global_config = config;
  call_map = some (record {
    global_config = config;
    allowed_peers = "10.0.0.9" ∷ [];
    controllers = trying.ctl ∷ [];
  });
  world = record trying.world { next_timer = 3; armed = 0 ∷ 1 ∷ 2 ∷ [] };
}

stop-Released_example :
    (t : Stack UdpTransport) × (stop (udp String) busy_stack ≡ (none, t))
    × Released (udp String) busy_stack t
    × (t.call_map ≡ disposed busy_stack.call_map)
    × (all_releases t ≡ call_releases t.call_map ++ stop_transport ∷ [])
stop-Released_example = stop-Released (udp String) busy_stack

abbrev signal_name : ℕ → String
signal_name n = "SIGTERM"

loop-Asked_example :
    let before = other ∷ poll ∷ [] in
    let between = other ∷ signal 2 ∷ [] in
    (loop signal_name before new_shutdown ≡ (none, new_shutdown))
    × (loop signal_name (before ++ signal 15 ∷ (between ++ poll ∷ other ∷ [])) new_shutdown
        ≡ (some (other ∷ []), asked_by signal_name (last_signal 15 between)))
loop-Asked_example =
    loop-Asked signal_name (other ∷ poll ∷ []) (other ∷ signal 2 ∷ []) (other ∷ []) 15 tt tt

abbrev is_digit : Char → Bool
is_digit c = leb 48 (code c) && leb (code c) 57

-- A log of prefixes.
abbrev log_prefix : String → String → List String → List String
log_prefix prefix message log = log ++ prefix ∷ []

abbrev two_messages : List (String × String)
two_messages =
    ("RECEIVED message from 10.0.0.9:5060:", "Call-ID: a\r\n")
    ∷ ("SENDING message to 10.0.0.2:5060:", "Call-ID: b\r\n")
    ∷ []

write_messages-build_sip_logger_example :
    let c =
      write_messages is_digit log_prefix two_messages
        (build_sip_logger false 1 ("boot" ∷ []) nothing_given) in
    ((r : SipMessageRecorder) × (sip_message_recorder c ≡ some r)
      × (r.messages
          ≡ drop (length (history is_digit two_messages) - 1) (history is_digit two_messages)))
    × (sippy_log c ≡ some ("boot" ∷ []))
write_messages-build_sip_logger_example =
    write_messages-build_sip_logger is_digit log_prefix false 1 ("boot" ∷ []) two_messages
