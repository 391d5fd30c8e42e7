-- ===== src/State.antt =====
-- shm-state: descriptors in a shared region (`Ring`), and a value kept in it (`Seq`).
pub mod Ring
pub mod Area
pub mod Seq
pub mod Tests
