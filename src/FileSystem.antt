-- ===== src/FileSystem.antt =====
-- volumes/02.Kernel64/Source/FileSystem.c: clusters, links, directory entries and files on a block
-- device.
pub mod State
pub mod Sectors
pub mod Links
pub mod Disk
pub mod Table
pub mod Chain
pub mod Rounds
pub mod Search
pub mod Format
pub mod Layout
pub mod Fresh
pub mod Directory
pub mod ReadWrite
pub mod Seek
pub mod Files
pub mod Bounds
mod Tests
