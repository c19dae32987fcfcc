-- ===== src/Examples.antt =====
-- Tests and concrete instances of the theorems, on a small cluster.
pub mod Cluster
pub mod Opened
mod Migration
mod Syncing
mod Walk
mod Waiting
mod Checks
mod Ending
mod Templates
mod Passes
mod Commands
mod Backup
mod Tracking
mod Manager
