-- ===== src/Fisopfs.antt =====
-- fisopfs: the FUSE file system of fisopfs/.
pub mod Paths
pub mod Tree
pub mod Directory
pub mod Lookup
pub mod Outcome
pub mod Handlers
pub mod Disk
pub mod Validity
mod Tests
