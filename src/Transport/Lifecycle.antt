-- ===== src/Transport/Lifecycle.antt =====
-- transport.py: what `start` opens and `stop` closes.
use as_platform.Base.{
  Option-cases, ℕ, suc, ◌≤◌, ◌<◌, ◌≡◌, refl, sym, subst, inl, inr, ap, ◌∙◌, true, not, String, List,
  [], ◌∷◌, Option, none, some, arith, eqb, keep, All, Reply, value, failed,
}
use as_platform.Transport.{
  bind_listener, load_cert_chain, load_verify_locations, Os, Net, TlsTransport, Bound, Error, Stm,
  new_tls, stop, sip_config, config_of, start, loopback, outcome, close, opened_one, open_listener,
  open_bridge,
}

-- Every open socket has been handed out.
abbrev pub Fresh : Net → Type 0
Fresh net = All (λ s. s < net.next) net.opened

pub kept : (n : ℕ) (l : List ℕ) → All (λ s. s < n) l → keep (λ s. not (eqb s n)) l ≡ l
kept n [] h = refl
kept n (x ∷ l) h = ground (arith, kept n l h.1)

weaker : (n m : ℕ) (l : List ℕ) → n ≤ m → All (λ s. s < n) l → All (λ s. s < m) l
weaker n m [] le h = tt
weaker n m (x ∷ l) le h = (omega arith, weaker n m l le h.1)

-- The sockets of a started transport.
abbrev bridged : Net → List ℕ
bridged net = suc (suc (suc net.next)) ∷ suc (suc net.next) ∷ net.next ∷ net.opened

close_probe :
    (net : Net)
    → Fresh net
    → (close (suc net.next) (opened_one (opened_one net))).opened ≡ net.next ∷ net.opened
close_probe net h = ground (arith, kept (suc net.next) net.opened (weaker _ _ _ (omega arith) h))

close-bridged :
    (net : Net) (next : ℕ)
    → Fresh net
    → (close (suc (suc (suc net.next))) (
        close
          (suc (suc net.next))
          (close net.next (record { opened = bridged net; next = next })))).opened
      ≡ net.opened
close-bridged net next h = ground (
  arith,
  kept net.next net.opened h,
  kept (suc (suc net.next)) net.opened (weaker _ _ _ (omega arith) h),
  kept (suc (suc (suc net.next))) net.opened (weaker _ _ _ (omega arith) h),
)

-- The transport is the new one again.
abbrev pub Stopped : TlsTransport → Bound → Type 0
Stopped t b = (stop b).tls ≡ t

module _ {E : Type 0} (os : Os E) where
  -- What holds when the statements end, and when they raise.
  abbrev pub Leads :
      (Bound → Type 0) → (Bound → Type 0) → Reply (Error E) (Unit {0}) × Bound → Type 0
  Leads P F (value _, b) = P b
  Leads P F (failed e, b) = F b

  -- The transport once it has started: the address for sippy is that of the receiver, the three
  -- sockets are open and the probe is closed.
  abbrev Started : Net → Bound → Type 0
  Started net b =
      (sip_config {E = E} b ≡ value (loopback, os.assigned (suc net.next)))
      × (b.tls.tls_socket ≡ some net.next)
      × (b.tls.local_socket_in ≡ some (suc (suc net.next)))
      × (b.tls.local_socket_out ≡ some (suc (suc (suc net.next))))
      × (b.net.opened ≡ bridged net)

  -- `start` once the certificates are loaded.
  bind_open : TlsTransport → Stm os (Unit {0})
  bind_open t b =
      let (r, c) = bind_listener os t b in
      elim r [ value _ ↦ open_bridge os c | failed e ↦ (failed e, c) ]

  -- The state in which `start` ends.
  abbrev reached : TlsTransport → Net → Bound
  reached t net =
      let probed = close (suc net.next) (opened_one (opened_one net)) in
      record {
        tls = record t {
          local_udp_port = some (os.assigned (suc net.next));
          tls_socket = some net.next;
          local_socket_in = some (suc (suc net.next));
          local_socket_out = some (suc (suc (suc net.next)));
          running = true;
        };
        net = opened_one (opened_one probed);
      }

  bound-reached :
      (address : String) (port : ℕ) (certfile keyfile : String) (cafile : Option String) (net : Net)
      → let t = new_tls address port certfile keyfile cafile in
        Leads
          (λ b. b ≡ reached t net)
          (Stopped t)
          (bind_open t (record { tls = record t { running = true }; net = net }))
  unfolding bind_open bind_listener open_bridge outcome stop new_tls
  bound-reached address port certfile keyfile cafile net = ground arith

  start-reached :
      (address : String) (port : ℕ) (certfile keyfile : String) (cafile : Option String) (net : Net)
      → let t = new_tls address port certfile keyfile cafile in
        Leads (λ b. b ≡ reached t net) (Stopped t) (start os (record { tls = t; net = net }))
  unfolding start open_listener bind_open outcome stop new_tls
  start-reached address port certfile keyfile none net =
      elim (Option-cases (os.raises (load_cert_chain certfile keyfile))) [
        | inr (x, e) ↦ rw e refl
        | inl e ↦ rw e (bound-reached address port certfile keyfile none net)
      ]
  start-reached address port certfile keyfile (some ca) net =
      elim (Option-cases (os.raises (load_cert_chain certfile keyfile))) [
        | inr (x, e) ↦ rw e refl
        | inl e ↦ elim (Option-cases (os.raises (load_verify_locations ca))) [
          | inr (x, f) ↦ rw (e, f) refl
          | inl f ↦ rw (e, f) (bound-reached address port certfile keyfile (some ca) net)
        ]
      ]

  Leads-mono :
      (P Q F : Bound → Type 0) (r : Reply (Error E) (Unit {0}) × Bound)
      → ((b : Bound) → P b → Q b)
      → Leads P F r
      → Leads Q F r
  Leads-mono P Q F (value _, b) f h = f b h
  Leads-mono P Q F (failed e, b) f h = h

  -- Started, with a `stop` that gives everything back.
  abbrev pub Whole : TlsTransport → Net → Bound → Type 0
  Whole t net b = Started net b × Stopped t b × ((stop b).net.opened ≡ net.opened)

  reached-Whole :
      (address : String) (port : ℕ) (certfile keyfile : String) (cafile : Option String) (net : Net)
      → Fresh net
      → let t = new_tls address port certfile keyfile cafile in Whole t net (reached t net)
  unfolding stop new_tls sip_config config_of
  reached-Whole address port certfile keyfile cafile net h =
      let e = ap (λ l. suc (suc (suc net.next)) ∷ suc (suc net.next) ∷ l) (close_probe net h) in
      (
        (refl, refl, refl, refl, e),
        refl,
        ap
              (λ l.
                (close (suc (suc (suc net.next))) (
                  close (suc (suc net.next))
                    (close net.next (record { opened = l; next = net.next })))).opened)
              e
            ∙ close-bridged net net.next h,
      )

  -- Starting a new TLS transport either raises, and then stopping it makes it the new one again, or
  -- it ends with the listener and the two sockets of the bridge open, three different ones, with the
  -- probe closed, and with `sip_config` naming the loopback port that the probe got; then stopping it
  -- closes these three and no other socket and makes it the new one again.
  pub start-Whole :
      (address : String) (port : ℕ) (certfile keyfile : String) (cafile : Option String) (net : Net)
      → Fresh net
      → let t = new_tls address port certfile keyfile cafile in
        Leads (Whole t net) (Stopped t) (start os (record { tls = t; net = net }))
  start-Whole address port certfile keyfile cafile net h =
      let t = new_tls address port certfile keyfile cafile in
      Leads-mono (λ b. b ≡ reached t net) (Whole t net) (Stopped t)
        (start os (record { tls = t; net = net }))
        (λ b e.
          subst (Whole t net) (sym e) (reached-Whole address port certfile keyfile cafile net h))
        (start-reached address port certfile keyfile cafile net)
