-- ===== src/Load.antt =====
-- src/load: the tasks of the daemon and the thread that starts and ends them.
pub mod Task
pub mod Trial
pub mod Core
pub mod System
pub mod Tests
