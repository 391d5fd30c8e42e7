-- ===== src/Lib.antt =====
-- A verification library for shmfd: state that outlives a process in a shared memory file.
--
-- The program's parts, and the files that model them:
--
-- * shm-snapshot writes snapshots into a file that a reader may copy at any time. The file is a head
--   page, a ring of entries (offset and length of a snapshot), a ring of data bytes, and a tail.
--   `Snapshot/Layout` has the types of shm-snapshot/src/writer.rs, `Snapshot/Ring` its byte and entry
--   accesses (`write_at`, `read_at`, `copy_from_slice`, `read`, `insert_at`, `invalidate_at`,
--   `iter_valid`), `Snapshot/Config` the mapping and the configuration (`from_map`, `discover`,
--   `configure_head`, `configure_pages`), `Snapshot/Write` transactions (`write_with`,
--   `invalidate_heads_to`, `Entry::commit`, and `Writer::commit`, `Writer::commit_with` of
--   shm-snapshot/src/lib.rs), `Snapshot/File` what a reader does (`File::recover`,
--   `FileDiscovery::valid`, `retain` and `read`). `Snapshot/Crash` has the same commit as a step
--   relation, one store at a time: its states are what a crash leaves or another process reads.
-- * shm-restore (shm-snapshot/src/bin/shm-restore.rs) wraps a program and keeps its memory in a backup
--   file. `Snapshot/Backup` is the continuous backup (`try_restore_v1`), `Snapshot/WriteBack` the copies
--   between memory and backup (`writeback_protector`, `copy_file_range`, `copy_file_all`) and the part
--   of `main` that runs a command between them. `Snapshot/Continuous` is the loop of `main` that makes a
--   backup while the command runs, with the files that `try_restore_v1` opens, replaces and closes.
-- * shm-state keeps one value in a mapping of `u32` words. `State/Ring` is the ring of descriptors of
--   shm-state/src/ring.rs (`wrap`, `restore`, `push`, `invalidate`), `State/Seq` the value of
--   shm-state/src/seq.rs (`wrap`, `restore`, `set`, `get`), which names its bytes by the payload of a
--   descriptor that it pushes on the ring. `State/Area` is `Ring::new`, with the sizing and mapping of a
--   file in shm-state/src/area.rs, shm-state/src/mmap.rs and `Shm::stat` of shm-fd/src/op.rs.
-- * shm-fd finds the shared file among the descriptors that a service manager passes. `Fd/Listen` is
--   shm-fd/src/listenfd.rs and `SharedFd::from_listen` of shm-fd/src/lib.rs: the environment that a
--   process reads, extends and passes on. `Fd/Notify` is the notify socket of shm-fd/src/notifyfd.rs
--   with `maybe_notify`, `Fd/Exec` the closure that `wrap_proc` runs before an exec, and the wrapper
--   shm-fd/src/main.rs, which puts all of these together.
--
-- * examples/primes-snapshot/src/main.rs is a client: a sieve whose prime numbers stand in the tail of a
--   snapshot file. `Sieve` is its arithmetic, `Sieve/Snapshots` its `run_main_routine`, the rounds of
--   `commit_with` in `main`, and `restore_from`; `Sieve/Primes` the prime numbers by a search of all
--   divisors, against which it is proved. `Sieve/Chunk` is `run_main_routine` of examples/primes/src/main.rs,
--   which keeps the numbers in the whole of a file.
--
-- The children of a module have the lemmas on it; the modules called `Tests` run the theorems on small
-- inputs. `Prelude` has what all share: comparisons of numbers, lists, bits,
-- bytes in a word, machine words.
--
-- How the code is read:
--
-- * A function that can panic returns `Run`: `done`, `panic` or, for a loop on fuel, `starved`. Plain
--   arithmetic panics where it overflows, as under overflow checks; `wrapping_add` and casts wrap. The
--   one loop on fuel, `invalidate_from`, gets one round more than the entry write offset is ahead of
--   the entry read offset, which is enough.
-- * The words of a mapping are a function from addresses to numbers, passed on by each store; one
--   thread runs at a time, so the orderings of the atomics have no effect. Two heads on one mapping
--   (`alternate_head`) share the words and the head page.
-- * A closure is a function that takes what it captures and hands it back. `u32::from_ne_bytes` and its
--   inverse are those of a little-endian machine. `usize` has 64 bits.
--
-- * System calls are arguments, as a record of functions that take the state of the system and hand on
--   the next one; what the code relies on of them is a second record, of laws (`Snapshot/WriteBack/Kernel`,
--   `Fd/Exec/Table`), which the tests fill with files in memory and with a table of descriptors. The loop
--   of `copy_file_all` gets one round more than the file has bytes: enough where each write takes a byte.
--   The loop of `upper_int_sqrt` gets the length of its range and one, and is shown to end within it.
--   Each search of `Sieve/Chunk` gets as much fuel as the largest prime number that the chunk needs.
-- * The stores of `Snapshot/Crash` reach the memory in the order of the program, each as a whole: a word
--   is 8 bytes and aligned. A machine that reorders relaxed stores has more states than these.
--
-- Not modelled: unmapping files and the tables of libc functions (shm-state/src/mmap.rs,
-- shm-fd/src/op.rs), opening a `MemFile` (shm-fd/src/lib.rs), the command line, signals and set-up of
-- shm-snapshot/src/bin/shm-restore.rs before its protector, the variable that
-- `_set_pid` sets in shm-fd/src/listenfd.rs: they are calls of the operating system. The child of
-- `Snapshot/Continuous` changes files only at the waits for it. What a concurrent
-- copy of a written file contains is not modelled: `Snapshot/Backup` takes any file as the copy.
pub mod Prelude
pub mod Snapshot
pub mod State
pub mod Fd
pub mod Sieve
