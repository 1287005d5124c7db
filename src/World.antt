-- ===== src/World.antt =====
-- What the signalling code shares and what it calls: the counters, the traces, the log, and sippy.
-- sippy, the clock and the log handlers are not part of the repository. A call of sippy is recorded
-- in the order of the calls; what sippy answers comes back as a later event, or as a parameter.
-- Texts stand for what sippy renders as texts. Seconds are counted in milliseconds.
mod Types
mod Effects
unfoldable pub use Effects.*
unfoldable pub use Types.*
