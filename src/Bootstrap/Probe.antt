-- ===== src/Bootstrap/Probe.antt =====
-- bootstrap.py: the probe of a port leaves no socket behind, and how it fails.
use as_platform.Base.{
  ℕ, ◌≡◌, refl, String, Option, none, some, Reply, value, failed, arith, str_dec,
}
use as_platform.Base.Dict.{lookup}
use as_platform.Base.Text.{str}
use as_platform.Errors.{AsError, as_error, error_code}
use as_platform.Transport.{Os, Net, new_socket, reuse_address, bind, close, opened_one}
use as_platform.Transport.Lifecycle.{Fresh, kept}
use as_platform.Bootstrap.{
  ProbeError, os_error, platform_error, port_error, first_error, bind_probe, open_probe,
  check_port_available,
}

-- The error of a port that cannot be bound.
abbrev pub Unavailable : String → ℕ → AsError → Type 0
Unavailable address port error =
    (error.code.code ≡ "AS-CFG-003")
    × (lookup "address" error.context ≡ some address)
    × (lookup "port" error.context ≡ some (str port))

-- What the probe comes to, by what the operating system refuses: the socket, the option or the
-- binding, or nothing.
abbrev pub ProbedAs :
    {E : Type 0}
    → Option E
    → Option E
    → Option E
    → String
    → ℕ
    → Reply (ProbeError E) (Unit {0})
    → Type 0
ProbedAs (some e) option binding address port r = r ≡ failed (os_error e)
ProbedAs none (some e) binding address port r =
    (error : AsError) × (r ≡ failed (platform_error error)) × Unavailable address port error
ProbedAs none none (some e) address port r =
    (error : AsError) × (r ≡ failed (platform_error error)) × Unavailable address port error
ProbedAs none none none address port r = r ≡ value tt

abbrev pub Probed :
    {E : Type 0} → Os E → String → ℕ → Net → Reply (ProbeError E) (Unit {0}) → Type 0
Probed os address port net r =
    ProbedAs (os.raises (new_socket net.next)) (os.raises (reuse_address net.next))
      (os.raises (bind net.next address port)) address port r

module _ {E : Type 0} (os : Os E) (show_error : E → String) where
  closed : (net : Net) → Fresh net → (close net.next (opened_one net)).opened ≡ net.opened
  closed net h = ground (arith, kept net.next net.opened h)

  bind-Ended :
      (o p : Option E) (address : String) (port : ℕ) (net : Net)
      → Fresh net
      → let result =
          bind_probe os show_error (first_error o p) net.next address port (opened_one net) in
        ProbedAs none o p address port result.0 × (result.1.opened ≡ net.opened)
  unfolding bind_probe first_error port_error lookup as_error error_code str_dec
  bind-Ended (some x) p address port net h = ((_, refl, (refl, refl, refl)), closed net h)
  bind-Ended none none address port net h = (refl, closed net h)
  bind-Ended none (some x) address port net h = ((_, refl, (refl, refl, refl)), closed net h)

  open-Ended :
      (o : Option E) (address : String) (port : ℕ) (net : Net)
      → Fresh net
      → let result = open_probe os show_error o address port net in
        ProbedAs o
          (os.raises (reuse_address net.next))
          (os.raises (bind net.next address port))
          address
          port
          result.0
        × (result.1.opened ≡ net.opened)
  unfolding open_probe
  open-Ended none address port net h =
      bind-Ended (os.raises (reuse_address net.next)) (os.raises (bind net.next address port))
        address port net h
  open-Ended (some x) address port net h = (refl, refl)

  -- The probe of a port leaves exactly the sockets open that were open before, whatever it comes to.
  -- If no socket can be made it raises the operating system's own error, if the socket's option
  -- cannot be set or the socket cannot be bound to the port it raises AS-CFG-003 with the address and
  -- the port in its context, and if both can be done, the probe returns.
  pub check_port_available-Ended :
      (address : String) (port : ℕ) (net : Net)
      → Fresh net
      → let result = check_port_available os show_error address port net in
        Probed os address port net result.0 × (result.1.opened ≡ net.opened)
  unfolding check_port_available
  check_port_available-Ended address port net h =
      open-Ended (os.raises (new_socket net.next)) address port net h
