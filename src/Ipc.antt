-- ===== src/Ipc.antt =====
-- src/vmp/vmp_shared.c, src/vmp/vmp_shared.h, src/ipcs/ipc_shared.c and src/ipcs/ipc_shared.h: the
-- shared-memory segment of the daemon and its child, and the watchdog loop of the daemon.
-- The semaphore makes each access between `shm_lock` and `shm_unlock` one atomic step.
pub mod Segment
pub mod Device
pub mod Watch
pub mod Rounds
pub mod Deadline
pub mod Counter
pub mod Tests
