-- ===== src/Shell.antt =====
-- ssh-hunt/crates/shell/src/lib.rs: the command line of a session.
pub mod Line
pub mod Tokens
pub mod Parser
pub mod Engine
pub mod Tests
