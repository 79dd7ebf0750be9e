-- ===== src/Startup.antt =====
-- app/vmp-daemon.c, src/support and the functions load_* of src/load/load_core.c: how the daemon
-- starts.
pub mod Config
pub mod Entry
pub mod Tests
