-- ===== src/Agent.antt =====
-- The agent's domain objects (src/agent/domain).
pub mod StepRing
pub mod EchoCorrelator
pub mod TxPacer
pub mod ChannelMap
mod Tests
