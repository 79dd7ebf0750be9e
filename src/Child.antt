-- ===== src/Child.antt =====
-- src/vmp/vmp_process.c and src/load/load_child.c: the daemon starts the media server, watches it, and
-- starts it anew when the watch gives it up.
pub mod Process
pub mod Waiting
pub mod Thread
pub mod Alone
pub mod Turns
pub mod Restarts
mod Tests
