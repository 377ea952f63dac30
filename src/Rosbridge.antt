-- ===== src/Rosbridge.antt =====
-- The rosbridge backend, roslibrust_rosbridge.
pub mod Ops
pub mod Json
pub mod Comm
pub mod Client
pub mod Queue
