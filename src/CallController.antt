-- ===== src/CallController.antt =====
-- call_controller.py, `BaseCallController`: the relay between the trunk leg (`ua_a`) and the
-- next-hop leg (`ua_o`). One function per method, in the order of the source. A handler runs to its
-- end before sippy delivers the next event, and whether a UA is connected does not change meanwhile.
mod Helpers
mod Originate
mod Decision
mod Relay
pub mod Headers
pub mod Attempt
pub mod Failover
pub mod Ending
pub mod Trunk
pub mod Spares
pub mod Steps
pub mod FromTrunk
pub mod Keeps
pub mod Calls
pub mod Walk
pub mod Timers
pub mod OneLeg
unfoldable pub use Helpers.*
unfoldable pub use Originate.*
unfoldable pub use Decision.*
unfoldable pub use Relay.*
