-- ===== src/Shared.antt =====
-- The helpers of src/shared that hub, agent and client have in common.
pub mod BoundedString
pub mod EgressShaper
pub mod ReconnectBackoff
mod Tests
