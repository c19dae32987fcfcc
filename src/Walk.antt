-- ===== src/Walk.antt =====
-- The order in which getNextVolumeReplica goes through the volumes and replicas.
pub mod Index
pub mod Names
pub mod Steps
pub mod Fresh
