-- ===== src/Vfs.antt =====
-- ssh-hunt/crates/vfs/src/lib.rs: the virtual file system of a session.
pub mod Node
pub mod Path
pub mod Tree
pub mod Glob
pub mod Read
pub mod Write
pub mod Valid
pub mod Tests
