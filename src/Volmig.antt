-- ===== src/Volmig.antt =====
-- The command line tool volmig: cmd/volmig. A command is a program that may stop with an exit
-- status; to return is to exit with status 0.
pub mod Text
pub mod Age
pub mod Client
pub mod Prints
pub mod Reports
pub mod Create
pub mod Delete
pub mod Watch
pub mod Status
pub mod Describe
pub mod List
pub mod Watching
pub mod Creating
pub mod Deleting
pub mod Showing
pub mod Changes
pub mod WatchEnds
pub mod Rows
pub mod Listing
pub mod Describing
