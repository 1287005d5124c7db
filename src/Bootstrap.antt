-- ===== src/Bootstrap.antt =====
-- bootstrap.py, `check_port_available`: the probe of a UDP port before the service starts. Which calls
-- of the operating system raise is a parameter, and so is how its error is written.
pub mod Probe
use as_platform.Base.{ℕ, ◌<>◌, String, List, [], ◌∷◌, Option, none, some, Reply, value, failed}
use as_platform.Base.Text.{str}
use as_platform.Errors.{AsError, as_error, error_code, cfg_port_unavailable}
use as_platform.Transport.{Os, Net, new_socket, reuse_address, bind, opened_one, close}

-- What the probe raises: the error of the operating system, or the platform's.
pub data ProbeError (E : Type 0) : Type 0 where
  os_error : E → ProbeError E
  platform_error : AsError → ProbeError E

-- The error that the `try` block raises: `probe.setsockopt(…)`, and then `probe.bind(…)`.
unfoldable pub first_error : {E : Type 0} → Option E → Option E → Option E
first_error (some e) of_bind = some e
first_error none of_bind = of_bind

module _ {E : Type 0} (os : Os E) (show_error : E → String) where
  unfoldable pub port_error : String → ℕ → E → AsError
  port_error address port e =
      as_error (error_code cfg_port_unavailable)
        (some ("cannot bind UDP " <> (address <> (":" <> (str port <> (": " <> show_error e))))))
        none (("address", address) ∷ ("port", str port) ∷ [])

  -- `except OSError`, and `finally: probe.close()`
  unfoldable pub bind_probe :
      Option E → ℕ → String → ℕ → Net → Reply (ProbeError E) (Unit {0}) × Net
  unfolding port_error
  bind_probe none probe address port net = (value tt, close probe net)
  bind_probe (some e) probe address port net =
      (failed (platform_error (port_error address port e)), close probe net)

  unfoldable pub open_probe : Option E → String → ℕ → Net → Reply (ProbeError E) (Unit {0}) × Net
  unfolding bind_probe first_error
  open_probe none address port net =
      bind_probe
        (first_error (os.raises (reuse_address net.next)) (os.raises (bind net.next address port)))
        net.next address port (opened_one net)
  open_probe (some e) address port net = (failed (os_error e), net)

  unfoldable pub check_port_available : String → ℕ → Net → Reply (ProbeError E) (Unit {0}) × Net
  unfolding open_probe
  check_port_available address port net =
      open_probe (os.raises (new_socket net.next)) address port net
