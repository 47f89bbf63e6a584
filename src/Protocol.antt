-- ===== src/Protocol.antt =====
-- The messages of the protocol (src/protocol): what a peer writes and what the other reads of it.
pub mod Wire
pub mod Message
pub mod Frame
pub mod Hello
pub mod Open
pub mod Error
pub mod Subscribe
pub mod Status
pub mod Register
pub mod ListReply
pub mod InterfaceName
pub mod Settings
pub mod Ifconfig
mod Tests
