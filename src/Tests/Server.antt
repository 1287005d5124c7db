-- ===== src/Tests/Server.antt =====
-- The theorem on the internal API server, applied to a server that is started three times.
use as_platform.Base.{◌≡◌, List, [], ◌∷◌}
use as_platform.InternalApi.Server.{Identity, new_server}
use as_platform.InternalApi.Server.Left.{Command, starts, stops, obey, serving, obey-left_serving}

abbrev screening : Identity
screening = record {
  title = "anti-fraud";
  thread_name = "internal-api";
  resource_path = "/api/v1/screening";
}

abbrev commands : List Command
commands = stops ∷ starts ∷ stops ∷ starts ∷ starts ∷ stops ∷ []

obey-left_serving_example :
    serving
      (obey commands
        (new_server "127.0.0.1" 8080 "1.0" screening 5)
        (record { servers = []; next = 0 })).servers
    ≡ 1 ∷ []
obey-left_serving_example = obey-left_serving commands "127.0.0.1" 8080 "1.0" screening 5
