-- ===== src/Snapshot.antt =====
-- shm-snapshot: the snapshot file and its writer. `Layout` has the types, `Ring` the bytes and
-- entries of the mapped file, `Config` its layout, `Write` a writer's transactions, `File` what a
-- reader does, `Backup` the continuous backup.
pub mod Layout
pub mod Ring
pub mod Config
pub mod Write
pub mod Crash
pub mod Continuous
pub mod File
pub mod Backup
pub mod WriteBack
pub mod Tests
