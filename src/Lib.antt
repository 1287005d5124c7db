-- ===== src/Lib.antt =====
-- as_platform is the skeleton of a SIP application server: a back-to-back user agent on top of the
-- sippy library. An application subclasses its classes and supplies the decisions. This library
-- models the skeleton's own logic; all paths are from the repository's root.
--
-- The parts, and the files that model them:
--   * CallController: `BaseCallController` of src/as_platform/call_controller.py. The answering leg
--     (`ua_a`) towards the trunk, the originating leg (`ua_o`) towards a next hop, the timer that
--     watches for an answer, and the failover over the hops that are left. Helpers has the module's
--     functions, Originate the answering leg and the attempts, Decision what the application decides
--     and the rejection, Relay the events between the legs and the callback of the timer. A method
--     `_name` is the function `name`. The proofs: Attempt and Failover (one attempt, and what starts
--     it), Trunk (the decision), Ending (the end of a call, and events that pass), Steps and Keeps
--     (the invariant, over any sequence of events, timers and disposals), Spares (the timers of other
--     calls), Walk (a whole failover),
--     OneLeg (rejected calls), Timers (what becomes of the no-answer timers).
--   * CallMap: `BaseCallMap` of the same file, with the peer allowlist of
--     src/as_platform/sip_adapter.py. It screens a request, makes a controller for a new call and
--     hands it the request (Screening), and disposes of all calls (Shutdown). Process has all calls of
--     a process over one world, with requests and inputs in any order (Delivery and Lives have the
--     invariant of all calls, Apart that they share no timer and no UA, Elsewhere and
--     Isolation what other calls do to one).
--   * SipAdapter: src/as_platform/sip_adapter.py. Request-URIs and Call-IDs (Uris), and the
--     cancellation of a transaction manager's timers (Drained).
--   * Metrics and Tracing: src/as_platform/observability/metrics.py and tracing.py. The controllers
--     and the call map write to them.
--   * StateStore: the store seam of src/as_platform/state_store.py as an interface with laws
--     (`IsLawful`), and the in-memory store that meets it. RedisStore: the other store, whose calls
--     go through a queue to one worker thread (Queue), its choice of the keys to delete (Eviction,
--     Ranking), scans that list a key again (Scan), what Redis documents of its commands (Memory), what the callers are answered
--     (Answers), and its start and stop with the threads in any order (Lifecycle, with Worker and
--     Session).
--   * Stack: src/as_platform/main.py, the process shell. `start` binds the transport, the call map and
--     sippy's transaction manager (Start), `stop` releases them in a fixed order (Releases has its
--     steps, Stop the whole), and the event loop polls for a shutdown that the signal handlers of
--     src/as_platform/bootstrap.py request (Loop). SipLogger has the channel for the SIP messages.
--   * Transport: src/as_platform/transport.py. The seam that the stack starts, asks for an address and
--     stops, as an interface; the UDP and the TLS transport (Lifecycle).
--   * Messages: the SIP message recorder of observability/tracing.py, with its two regular expressions
--     (Capture). InternalApi: src/as_platform/internal_api.py, the documents that are served from the
--     registries and the recorders (Documents) and the event feed of the console (Feed has a poll,
--     Connection a whole connection). Server has the application with its routes and the server that
--     is started and stopped (Left).
--   * Capacity: src/as_platform/capacity_harness.py, the driver with the counters of a level (Counts),
--     its workers, whose steps interleave in any order (Workers, with Tally, Fate and Results), and the gap
--     of the event loop (Gap).
--   * RouteHeader: src/as_platform/route_header.py, the target of a Route entry (Entry). Version:
--     src/as_platform/version.py, the sources of a version, and the package's own (Chain).
--   * Logging: src/as_platform/observability/logging.py, the fields of a formatted line (Fields) and the
--     handlers of the root logger (Configure).
--   * Errors: src/as_platform/errors.py, which the signalling code uses.
--   * World: what the signalling code reads and writes: the counters, the traces, the log, sippy's
--     process-wide `SipConf`, the calls of sippy in their order, and the timers that are armed.
--     Effects has the monad of the handlers: state passing with exceptions.
--   * Base: texts, dicts in insertion order, and lists measured by native numbers.
--   * Tests: small calls, stores and traces on which the theorems are applied.
--
-- State and order. A handler of a controller is a function from a state to a result and a state; a
-- run is a list of inputs, in the order in which sippy's single thread delivers them. What the code
-- mutates is the new state. Python's `None` is `none`, a raised exception is the result `raised` with
-- what was written before it.
--
-- Parameters. Code outside the repository is never given a definition. The application's hooks
-- (`decide`, the fields for the log, `_build_controller`), whether a UA is connected and whether a log
-- level is enabled are fields of `Env` or arguments. sippy's calls are recorded and return nothing but
-- fresh numbers for UAs and timers. The clock is an argument, as are Python's `ipaddress` and
-- `repr`, the client of Redis, `json`, and the functions of the operating system.
--
-- Bounds. Numbers are natural numbers without a width, as Python's are; where the code subtracts, the
-- guard in front of it is in the model. Every function is total by structural recursion; the only
-- fuel is that of `Base.Text.str`, which has one unit for each unit of the number that it prints and
-- drops a digit at each step.
--
-- Not modelled: what uvicorn does on its thread, HTTP and the choice of a route, the locks (each
-- method that runs under a lock is one step), the rendering of the log as JSON, the field bounds that
-- pydantic checks for a `NextHop`, the names that Python's `logging` reserves, which raise there, what
-- may raise while the stack stops, and the event that sippy emits for a `disconnect`, which is an
-- input of its own.
pub mod Base
pub mod Metrics
pub mod StateStore
pub mod Tracing
pub mod Errors
pub mod World
pub mod CallController
pub mod CallMap
pub mod SipAdapter
pub mod RedisStore
pub mod Transport
pub mod Stack
pub mod Messages
pub mod InternalApi
pub mod Logging
pub mod RouteHeader
pub mod Bootstrap
pub mod Capacity
pub mod Version
pub mod Tests
