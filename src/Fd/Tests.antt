-- ===== src/Fd/Tests.antt =====
-- Runs of the theorems on a process that was passed two sockets.
use shmfd.Prelude.{ℕ, ◌+◌, ◌≡◌, refl, arith, Bool, true, done, none, some, Result, ok, [], ◌∷◌}
use shmfd.Fd.Text.{ℤ, pos}
use shmfd.Fd.Listen.{
  ListenFd, ListenInit, Environment, pid_accepted, named_or_try_create, wrap_proc_env,
  shm_shared_fd, from_env,
}
use shmfd.Fd.Listen.Child.{
  IsListen, ChildFinds, named_or_try_create-ChildFinds, named_or_try_create-unnamed,
}

-- The descriptors "a" and "bc".
abbrev pub sockets : ListenFd
sockets = record { fd_base = pos 3; fd_len = pos 2; names = (97 ∷ []) ∷ (98 ∷ 99 ∷ []) ∷ [] }

pub sockets-IsListen : IsListen sockets
sockets-IsListen = record { base = refl; count = refl; plain = (refl, (refl, tt)) }

abbrev pub inherited : Environment
inherited = record { listen_fds = none; listen_pid = none; listen_fdnames = none }

pub accepted : pid_accepted (pos 77) inherited.listen_pid ≡ true
unfolding pid_accepted
accepted = refl

abbrev all_open : ℤ → Bool
all_open fd = true

-- A file is a number here.
abbrev create_file : Unit {0} → Result ℕ ℕ
create_file u = ok 9

abbrev pub child : ListenInit ℕ
child = record { listen = sockets; file = some 9; target = pos 4 }

named_or_try_create-ChildFinds_example :
    ChildFinds (some sockets) create_file (pos 77) all_open inherited
named_or_try_create-ChildFinds_example =
    named_or_try_create-ChildFinds (some sockets) create_file 9 (pos 77) all_open inherited
      (sockets-IsListen, omega arith) refl accepted

named_or_try_create-unnamed_example :
    (init : ListenInit ℕ) × (named_or_try_create
        (some (record { fd_base = pos 3; fd_len = pos 2; names = [] }))
        shm_shared_fd
        create_file
      ≡ done (ok init))
    × (init.target ≡ pos (3 + 2))
    × (from_env (pos 77) all_open (wrap_proc_env init inherited) ≡ done (some (pos 3)))
named_or_try_create-unnamed_example =
    named_or_try_create-unnamed create_file 9 2 (pos 77) all_open inherited (omega arith) refl
      accepted refl
