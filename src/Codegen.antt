-- ===== src/Codegen.antt =====
-- roslibrust_codegen: parsing of ROS interface files, and what is computed from them.
pub mod Strs
pub mod Types
pub mod TypeIds
pub mod Lacks
pub mod Parse
pub mod MessageGraph
pub mod Ros2Hashing
pub mod Messages
pub mod Builtin
pub mod Resolve
pub mod IntegralTypes
mod Tests
