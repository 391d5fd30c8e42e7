-- ===== src/Fd.antt =====
-- shm-fd: the shared memory file among the file descriptors that a service manager passes.
pub mod Text
pub mod Listen
pub mod Notify
pub mod Exec
pub mod Tests
