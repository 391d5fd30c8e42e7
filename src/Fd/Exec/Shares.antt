-- ===== src/Fd/Exec/Shares.antt =====
-- The wrapper program shm-fd/src/main.rs as a whole: the program that it executes finds the shared
-- memory file by `SharedFd::from_env` of shm-fd/src/lib.rs.
use shmfd.Prelude.{ℕ, Bool, true, false, Option, none, some}
use shmfd.Fd.Text.{ℤ}
use shmfd.Fd.Listen.{ListenInit}
use shmfd.Fd.Exec.{FdCalls}
use shmfd.Fd.Exec.Table.{Table}

abbrev pub is_some : Option ℕ → Bool
is_some none = false
is_some (some n) = true

module _ {T : Type 0} (calls : FdCalls T) (k : Table calls) where
  -- The file that the program is to share: a new one, or the one that `target` is open on.
  abbrev pub shared : ListenInit ℤ → T → Option ℕ
  shared init t = elim init.file [
    | none ↦ k.file (calls.exec t) init.target
    | some rawfd ↦ k.file t rawfd
  ]
