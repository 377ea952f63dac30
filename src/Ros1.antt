-- ===== src/Ros1.antt =====
-- The native ROS 1 client, roslibrust_ros1.
pub mod Master
pub mod Node
pub mod Subscriber
pub mod Handshake
pub mod Names
pub mod Services
pub mod Publishing
