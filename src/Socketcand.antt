-- ===== src/Socketcand.antt =====
-- The gateway for socketcand clients (src/socketcand/domain): the splitting of their byte stream.
pub mod AsciiFramer
