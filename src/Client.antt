-- ===== src/Client.antt =====
-- cmd/cmd.go: the commands that talk to a running daemon.
pub mod Size
pub mod Commands
pub mod Daemon
pub mod Running
pub mod Program
pub mod Reloading
pub mod Start
