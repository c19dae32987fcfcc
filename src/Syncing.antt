-- ===== src/Syncing.antt =====
-- The order in which handleSyncing makes its requests.
pub mod Guard
mod Claims
mod Swap
mod Pods
mod Detach
mod Restore
pub mod Order
pub mod Resume
