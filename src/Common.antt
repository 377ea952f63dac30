-- ===== src/Common.antt =====
-- roslibrust_common: what the backends share.
pub mod TopicName
pub mod Md5sum
