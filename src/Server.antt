-- ===== src/Server.antt =====
-- ssh-hunt/crates/ssh_hunt_server/src/builtins.rs: the commands that the server registers with the shell.
pub mod Words
pub mod Conditions
pub mod Commands
pub mod Tests
