-- ===== src/Fd/Exec.antt =====
-- The child processes of shm-fd: the closure that `ListenInit::wrap_proc` of shm-fd/src/listenfd.rs
-- runs before the exec, `fcntl_cloexec` of shm-snapshot/src/bin/shm-restore.rs, and the wrapper
-- program shm-fd/src/main.rs up to its exec. The system calls are arguments, and so is the environment
-- variable NOTIFY_SOCKET; the descriptors are those of the process when the file is made.
pub mod Table
pub mod Shares
pub mod Tests
use shmfd.Prelude.{
  ℕ, ◌^◌, bit_or, if◌then◌else◌, Bool, true, false, Run, done, panic, ◌>>=◌, Option, none, some,
  Result, ok, err, List,
}
use shmfd.Fd.Text.{ℤ, pos, negsuc, same_i32}
use shmfd.Fd.Notify.{NotifyFd, SocketCalls, notify_new, maybe_notify}
use shmfd.Fd.Listen.{
  ListenFd, ListenInit, ListenError, Environment, listen_new, named_or_try_create, wrap_proc_env,
  shm_shared_fd,
}

-- `dup2`, `fcntl` with F_GETFD (no flags are -1) and with F_SETFD, the number of the last error, and what an exec makes of the
-- descriptors.
pub record FdCalls (T : Type 0) : Type 0 where
  pub dup2 : T → ℤ → ℤ → ℤ × T
  pub get_flags : T → ℤ → Option ℕ
  pub set_flags : T → ℤ → ℕ → ℤ × T
  pub errno : T → ℤ
  pub exec : T → T

-- The descriptors that `main` was passed; `expect` panics.
unfoldable pub passed_fds : ℤ → Environment → Run (Option ListenFd)
passed_fds own env = elim (listen_new own env) [
  | none ↦ done none
  | some (err e) ↦ panic
  | some (ok listen) ↦ done (some listen)
]

-- The `ListenInit` of `main`.
unfoldable pub init_of : Option ListenFd → (Unit {0} → Result ℤ ℤ) → Run (ListenInit ℤ)
init_of listen create = named_or_try_create listen shm_shared_fd create >>= λ init. elim init [
  | err e ↦ panic
  | ok i ↦ done i
]

-- The notify socket of `main`, by the value of `NOTIFY_SOCKET`, and the message to it.
module _ {S : Type 0} (sockets : SocketCalls S) where
  unfoldable pub notify_of : S → Option (List ℕ) → Run (Option NotifyFd × S)
  unfolding notify_new
  notify_of s name =
      let (opened, s') = notify_new sockets s name in
      elim opened [
        | none ↦ done (none, s')
        | some (err e) ↦ panic
        | some (ok notify) ↦ done (some notify, s')
      ]

  unfoldable pub notify_init : S → ListenInit ℤ → Option NotifyFd → Run S
  notify_init s init none = done s
  notify_init s init (some notify) = do
    (result, s') ← maybe_notify sockets s init notify shm_shared_fd
    elim result [ err e ↦ panic | ok u ↦ done s' ]

module _ {T : Type 0} (calls : FdCalls T) where
  -- A call that has failed if it returned -1.
  abbrev pub checked : ℤ × T → Result (Unit {0}) ℤ × T
  checked (result, t) = (if same_i32 result (negsuc 0) then err (calls.errno t) else ok tt, t)

  -- The closure of `pre_exec` in `wrap_proc`, with what it captures.
  unfoldable pub pre_exec : Option ℤ → ℤ → T → Result (Unit {0}) ℤ × T
  pre_exec none target t = (ok tt, t)
  pre_exec (some rawfd) target t =
      if same_i32 rawfd target
      then checked (calls.set_flags t rawfd 0)
      else checked (calls.dup2 t rawfd target)

  -- `fcntl_cloexec`; FD_CLOEXEC is 1.
  unfoldable pub fcntl_cloexec : ℤ → T → Result (Unit {0}) ℤ × T
  fcntl_cloexec fd t = elim (calls.get_flags t fd) [
    | none ↦ (err (calls.errno t), t)
    | some flags ↦ checked (calls.set_flags t fd (bit_or flags 1))
  ]

  -- The exec of `main` when the closure has run: the environment and the descriptors of the new
  -- program. A closure that fails makes the exec fail, and `main` panic.
  unfoldable pub after_closure :
      ListenInit ℤ → Environment → Result (Unit {0}) ℤ × T → Run (Environment × T)
  after_closure init env (err e, t) = panic
  after_closure init env (ok u, t) = done (wrap_proc_env init env, calls.exec t)

  unfoldable pub exec_with : ListenInit ℤ → Environment → T → Run (Environment × T)
  unfolding pre_exec after_closure
  exec_with init env t = after_closure init env (pre_exec init.file init.target t)

  -- `main` up to the new program.
  unfoldable pub main :
      {S : Type 0}
      → SocketCalls S
      → ℤ
      → Environment
      → Option (List ℕ)
      → (Unit {0} → Result ℤ ℤ)
      → S
      → T
      → Run (Environment × T)
  unfolding passed_fds notify_of init_of notify_init exec_with
  main sockets own env notify_socket create s t = do
    listen ← passed_fds own env
    (notify, s₁) ← notify_of sockets s notify_socket
    init ← init_of listen create
    s₂ ← notify_init sockets s₁ init notify
    exec_with init env t
