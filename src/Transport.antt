-- ===== src/Transport.antt =====
-- transport.py: the local socket that the stack binds. `Transport` is the seam, as an interface; the
-- UDP transport opens nothing, the TLS transport opens a listener and two sockets of a bridge. `ssl`
-- and `socket` are not part of the repository: which of their calls raise, and which port a socket
-- gets, are parameters. A socket is a number.
pub mod Lifecycle
use as_platform.Base.{
  ℕ, suc, Bool, true, false, not, String, List, [], ◌∷◌, Option, none, some, eqb, keep, Reply,
  value, failed,
}

-- `Transport`: what the stack calls. `sip_config` is the address and the port that sippy binds.
pub record Transport (E T : Type 0) : Type 0 where
  pub address : T → String
  pub port : T → ℕ
  pub sip_config : T → Reply E (String × ℕ)
  pub start : T → Reply E (Unit {0}) × T
  pub stop : T → T

pub record UdpTransport : Type 0 where
  pub address : String
  pub port : ℕ

unfoldable pub udp : (E : Type 0) → Transport E UdpTransport
udp E = record {
  address = λ t. t.address;
  port = λ t. t.port;
  sip_config = λ t. value (t.address, t.port);
  start = λ t. (value tt, t);
  stop = λ t. t;
}

-- The calls that may raise.
pub data OsCall : Type 0 where
  load_cert_chain : String → String → OsCall
  load_verify_locations : String → OsCall
  new_socket : ℕ → OsCall
  -- `setsockopt`, of `SO_REUSEADDR`
  reuse_address : ℕ → OsCall
  bind : ℕ → String → ℕ → OsCall
  listen wrap_socket : ℕ → OsCall

pub data Error (E : Type 0) : Type 0 where
  not_started : Error E
  refused : E → Error E

pub record Os (E : Type 0) : Type 0 where
  pub raises : OsCall → Option E
  -- The port of a socket that was bound to port 0.
  pub assigned : ℕ → ℕ

-- The sockets that have been opened and not been closed, and the number of the next one.
pub record Net : Type 0 where
  pub opened : List ℕ
  pub next : ℕ

pub record TlsTransport : Type 0 where
  pub address : String
  pub port : ℕ
  pub certfile : String
  pub keyfile : String
  pub cafile : Option String
  pub local_udp_port : Option ℕ
  pub tls_socket : Option ℕ
  pub local_socket_in : Option ℕ
  pub local_socket_out : Option ℕ
  pub bridge_threads : List ℕ
  pub running : Bool

unfoldable pub new_tls : String → ℕ → String → String → Option String → TlsTransport
new_tls address port certfile keyfile cafile = record {
  address = address;
  port = port;
  certfile = certfile;
  keyfile = keyfile;
  cafile = cafile;
  local_udp_port = none;
  tls_socket = none;
  local_socket_in = none;
  local_socket_out = none;
  bridge_threads = [];
  running = false;
}

-- The transport, and the sockets of the process.
pub record Bound : Type 0 where
  pub tls : TlsTransport
  pub net : Net

abbrev pub loopback : String
loopback = "127.0.0.1"

-- `sock.close()`, with an `OSError` suppressed.
abbrev pub close : ℕ → Net → Net
close socket net = record net { opened = keep (λ s. not (eqb s socket)) net.opened }

abbrev close_held : Option ℕ → Net → Net
close_held none net = net
close_held (some socket) net = close socket net

-- `stop`. Joining a bridge thread changes nothing of this state.
unfoldable pub stop : Bound → Bound
stop b = record {
  tls = record b.tls {
    local_udp_port = none;
    tls_socket = none;
    local_socket_in = none;
    local_socket_out = none;
    bridge_threads = [];
    running = false;
  };
  net =
      close_held b.tls.local_socket_out
        (close_held b.tls.local_socket_in (close_held b.tls.tls_socket b.net));
}

-- The net with one more socket.
abbrev pub opened_one : Net → Net
opened_one net = record { opened = net.next ∷ net.opened; next = suc net.next }

unfoldable pub config_of : {E : Type 0} → Option ℕ → Reply (Error E) (String × ℕ)
config_of none = failed not_started
config_of (some port) = value (loopback, port)

unfoldable pub sip_config : {E : Type 0} → Bound → Reply (Error E) (String × ℕ)
unfolding config_of
sip_config b = config_of b.tls.local_udp_port

module _ {E : Type 0} (os : Os E) where
  -- Statements that may raise, with what was done before left in place.
  abbrev pub Stm : Type 0 → Type 0
  Stm A = Bound → Reply (Error E) A × Bound

  infixl 5 ◌>>=◌ ◌>>◌
  abbrev pub ◌>>=◌ : {A B : Type 0} → Stm A → (A → Stm B) → Stm B
  ◌>>=◌ m f b = let (r, c) = m b in elim r [ value a ↦ f a c | failed e ↦ (failed e, c) ]

  abbrev pub ◌>>◌ : {A B : Type 0} → Stm A → Stm B → Stm B
  m >> k = m >>= λ _. k

  abbrev assign : (TlsTransport → TlsTransport) → Stm (Unit {0})
  assign f b = (value tt, record b { tls = f b.tls })

  abbrev on_net : (Net → Net) → Stm (Unit {0})
  on_net f b = (value tt, record b { net = f b.net })

  unfoldable pub outcome : Option E → Stm (Unit {0})
  outcome none b = (value tt, b)
  outcome (some e) b = (failed (refused e), b)

  abbrev pub call : OsCall → Stm (Unit {0})
  call c = outcome (os.raises c)

  -- The socket that the next call of `socket.socket` makes.
  abbrev upcoming : Stm ℕ
  upcoming b = (value b.net.next, b)

  abbrev open_socket : Stm ℕ
  open_socket = do
    socket ← upcoming
    call (new_socket socket)
    on_net opened_one
    (λ b. (value socket, b))

  abbrev load_ca : Option String → Stm (Unit {0})
  load_ca none = outcome none
  load_ca (some cafile) = call (load_verify_locations cafile)

  -- Step 1 of `start`, the TLS listener, from the socket on.
  unfoldable pub bind_listener : TlsTransport → Stm (Unit {0})
  bind_listener t = do
    raw ← open_socket
    call (reuse_address raw)
    call (bind raw t.address t.port)
    call (listen raw)
    call (wrap_socket raw)
    assign (λ t. record t { tls_socket = some raw })

  unfoldable pub open_listener : TlsTransport → Stm (Unit {0})
  unfolding bind_listener
  open_listener t = do
    call (load_cert_chain t.certfile t.keyfile)
    load_ca t.cafile
    bind_listener t

  -- Steps 2 and 3: the local port, and the two sockets of the bridge.
  unfoldable pub open_bridge : Stm (Unit {0})
  open_bridge = do
    probe ← open_socket
    call (bind probe loopback 0)
    assign (λ t. record t { local_udp_port = some (os.assigned probe) })
    on_net (close probe)
    receiver ← open_socket
    assign (λ t. record t { local_socket_in = some receiver })
    call (reuse_address receiver)
    call (bind receiver loopback (os.assigned probe))
    sender ← open_socket
    assign (λ t. record t { local_socket_out = some sender })

  unfoldable pub start : Stm (Unit {0})
  unfolding open_listener open_bridge
  start b = (do assign (λ t. record t { running = true }); open_listener b.tls; open_bridge) b

  unfoldable pub tls : Transport (Error E) Bound
  unfolding sip_config start stop
  tls = record {
    address = λ b. b.tls.address;
    port = λ b. b.tls.port;
    sip_config = sip_config;
    start = start;
    stop = stop;
  }
