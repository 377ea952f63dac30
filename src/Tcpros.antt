-- ===== src/Tcpros.antt =====
-- roslibrust_ros1/src/tcpros.rs: the connection header, its byte form, and the framing of messages
-- on a TCP stream. The proofs stand in the child modules.
pub mod Bytes
pub mod Header
pub mod Stream
mod Tests
