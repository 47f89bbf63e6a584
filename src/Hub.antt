-- ===== src/Hub.antt =====
-- The hub: its tables of sessions, tokens, transactions and bridges, and the egress queue of a peer
-- (src/hub/domain).
pub mod ClientSession
pub mod EchoTokens
pub mod TransactionTable
pub mod BridgeRoutes
pub mod BridgeGroups
pub mod BridgeTargets
pub mod EgressQueue
pub mod InterfaceRegistry
pub mod HubPeer
pub mod PeerDirectory
pub mod FrameRoutes
pub mod RejectedPeers
