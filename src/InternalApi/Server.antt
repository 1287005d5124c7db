-- ===== src/InternalApi/Server.antt =====
-- internal_api.py, `create_internal_api_app` and `InternalApiServer`: the routes with what they answer,
-- and the server that is started and stopped. FastAPI chooses the route of a request and uvicorn
-- serves it, on a thread of its own: what a request finds in the registries is an argument, and a
-- uvicorn server is known by its number, by what it is told to serve and by its `should_exit`.
pub mod Left
use as_platform.Base.{
  ℕ, suc, ◌-◌, Bool, true, false, String, List, [], ◌∷◌, ◌++◌, Option, none, some, map, eqb,
  if◌then◌else◌, Value,
}
use as_platform.Base.Dict.{Dict}
use as_platform.Metrics.{MetricsRegistry}
use as_platform.Tracing.{TraceRecorder}
use as_platform.Messages.{SipMessageRecorder}
use as_platform.InternalApi.{
  PayloadProvider, MetricsDocument, TraceDocument, MessagesDocument, Answer, metrics_payload,
  traces_payload, get_resource, health, get_trace, get_trace_messages,
}

-- The part of a `PayloadProvider` that names things.
pub record Identity : Type 0 where
  pub title : String
  pub thread_name : String
  pub resource_path : String

-- The handlers that are registered, `ws_events` last.
pub data Endpoint : Type 0 where
  healthz metrics_route resource_route traces_route trace_route messages_route events_route :
      Endpoint

-- The FastAPI application: what it is made with and the paths of its routes, in order.
pub record App : Type 0 where
  pub title : String
  pub version : String
  pub allow_origins : List String
  pub allow_methods : List String
  pub allow_headers : List String
  pub routes : Dict Endpoint
  pub started_at : ℕ

unfoldable create_internal_api_app : String → Identity → ℕ → App
create_internal_api_app version identity started_at = record {
  title = identity.title;
  version = version;
  allow_origins = "*" ∷ [];
  allow_methods = "GET" ∷ [];
  allow_headers = "*" ∷ [];
  routes =
      ("/healthz", healthz)
      ∷ ("/api/v1/metrics", metrics_route)
      ∷ (identity.resource_path, resource_route)
      ∷ ("/api/v1/traces", traces_route)
      ∷ ("/api/v1/traces/{call_id}", trace_route)
      ∷ ("/api/v1/traces/{call_id}/messages", messages_route)
      ∷ ("/ws/events", events_route)
      ∷ [];
  started_at = started_at;
}

-- What the handlers close over, as a request finds it.
pub record Registries (R : Type 0) : Type 0 where
  pub provider : PayloadProvider R
  pub metrics : MetricsRegistry
  pub tracer : TraceRecorder
  pub sip_recorder : Option SipMessageRecorder

pub data Response (R : Type 0) : Type 0 where
  health_document : Dict Value → Response R
  metrics_document : MetricsDocument → Response R
  resource_document : Answer R → Response R
  traces_document : List TraceDocument → Response R
  trace_document : TraceDocument → Response R
  messages_document : MessagesDocument → Response R

-- What the handler of a GET answers at a time, for the Call-ID in the path where the path has one.
unfoldable respond :
    {R : Type 0} → (ℕ → String) → App → ℕ → Registries R → Endpoint → String → Option (Response R)
unfolding health metrics_payload get_resource traces_payload get_trace get_trace_messages
respond isoformat app now rs healthz call_id =
    some (health_document (health app.version (now - app.started_at) rs.provider))
respond isoformat app now rs metrics_route call_id =
    some (metrics_document (metrics_payload rs.metrics))
respond isoformat app now rs resource_route call_id =
    some (resource_document (get_resource rs.provider))
respond isoformat app now rs traces_route call_id =
    some (traces_document (traces_payload isoformat rs.tracer 20))
respond isoformat app now rs trace_route call_id =
    some (trace_document (get_trace isoformat rs.tracer call_id))
respond isoformat app now rs messages_route call_id =
    some (messages_document (get_trace_messages rs.sip_recorder call_id))
respond isoformat app now rs events_route call_id = none

-- `uvicorn.Server(config)`, with the name of the thread that runs it.
pub record Uvicorn : Type 0 where
  pub number : ℕ
  pub app : App
  pub host : String
  pub port : ℕ
  pub thread_name : String
  pub should_exit : Bool

-- The uvicorn servers of the process, in the order of their making.
pub record Machine : Type 0 where
  pub servers : List Uvicorn
  pub next : ℕ

pub record Server : Type 0 where
  pub address : String
  pub port : ℕ
  pub version : String
  pub identity : Identity
  pub started_at : ℕ
  pub server : Option ℕ
  pub thread : Option ℕ

unfoldable pub new_server : String → ℕ → String → Identity → ℕ → Server
new_server address port version identity now = record {
  address = address;
  port = port;
  version = version;
  identity = identity;
  started_at = now;
  server = none;
  thread = none;
}

-- `uvicorn.Server(…)` and the thread that runs it.
unfoldable pub serve : Server → Machine → Machine
unfolding create_internal_api_app
serve s m = record {
  servers =
      m.servers
      ++ record {
        number = m.next;
        app = create_internal_api_app s.version s.identity s.started_at;
        host = s.address;
        port = s.port;
        thread_name = s.identity.thread_name;
        should_exit = false;
      }
        ∷ [];
  next = suc m.next;
}

unfoldable pub start : Server → Machine → Server × Machine
unfolding serve
start s m = (record s { server = some m.next; thread = some m.next }, serve s m)

-- `self._server.should_exit = True`
unfoldable pub ask : ℕ → List Uvicorn → List Uvicorn
ask n [] = []
ask n (u ∷ us) = (if eqb u.number n then record u { should_exit = true } else u) ∷ ask n us

unfoldable pub ask_held : Option ℕ → Machine → Machine
unfolding ask
ask_held none m = m
ask_held (some n) m = record m { servers = ask n m.servers }

-- The thread is waited for, for three seconds at most, and forgotten either way.
unfoldable pub stop : Server → Machine → Server × Machine
unfolding ask_held
stop s m = (record s { server = none; thread = none }, ask_held s.server m)
