-- ===== src/Tests/Backends.antt =====
-- The theorems on the order of eviction, on the transports and on the probe, applied.
use as_platform.Base.{◌+◌, arith, ℕ, ◌≤◌, ◌-◌, ◌≡◌, String, List, [], ◌∷◌, ◌++◌, none, length, All}
use mathlib.Core.List.{Perm}
use as_platform.Base.Dict.{Dict, keys}
use as_platform.RedisStore.{victims}
use as_platform.Transport.{Os, Net, new_tls, start}
use as_platform.Bootstrap.{check_port_available}
use as_platform.Bootstrap.Probe.{Probed, check_port_available-Ended}
use as_platform.Transport.Lifecycle.{Leads, Whole, Stopped, start-Whole}
use as_platform.RedisStore.Eviction.{victims-longest_idle}

abbrev read_times : Dict ℕ
read_times = ("w:1", 5) ∷ ("w:2", 9) ∷ ("w:3", 7) ∷ []

abbrev scanned : List String
scanned = "w:1" ∷ "w:2" ∷ "w:3" ∷ []

victims-longest_idle_example :
    (gone : Dict ℕ) × (kept : Dict ℕ) × (victims scanned 1 read_times ≡ keys gone)
    × Perm (gone ++ kept) read_times
    × All (λ e. All (λ f. f.1 ≤ e.1) kept) gone
    × (length kept ≡ length read_times - (length scanned - 1))
victims-longest_idle_example = victims-longest_idle scanned 1 read_times

-- An operating system that refuses nothing.
abbrev calm_os : Os String
calm_os = record { raises = λ c. none; assigned = λ s. s + 40000 }

start-Whole_example :
    let t = new_tls "0.0.0.0" 5061 "cert.pem" "key.pem" none in
    let net : Net = record { opened = 1 ∷ 0 ∷ []; next = 2 } in
    Leads calm_os (Whole calm_os t net) (Stopped t) (start calm_os (record { tls = t; net = net }))
start-Whole_example =
    start-Whole calm_os "0.0.0.0" 5061 "cert.pem" "key.pem" none
      (record { opened = 1 ∷ 0 ∷ []; next = 2 }) (omega arith, (omega arith, tt))

check_port_available-Ended_example :
    let net : Net = record { opened = 0 ∷ []; next = 1 } in
    let result = check_port_available calm_os (λ e. e) "10.0.0.1" 5060 net in
    Probed calm_os "10.0.0.1" 5060 net result.0 × (result.1.opened ≡ net.opened)
check_port_available-Ended_example =
    check_port_available-Ended calm_os (λ e. e) "10.0.0.1" 5060
      (record { opened = 0 ∷ []; next = 1 }) (omega arith, tt)
