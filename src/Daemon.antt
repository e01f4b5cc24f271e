-- ===== src/Daemon.antt =====
-- pkg/daemon: the chat sessions of the daemon and its watchdog.
pub mod Sessions
pub mod Watchdog
