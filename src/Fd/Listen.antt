-- ===== src/Fd/Listen.antt =====
-- shm-fd/src/listenfd.rs: the file descriptors that a process is passed in its environment, finds or
-- adds to, and passes on; and the lookup of `SharedFd` in shm-fd/src/lib.rs.
pub mod Position
pub mod Child
use shmfd.Prelude.{
  ℕ, zero, suc, ◌+◌, ◌*◌, ◌^◌, if◌then◌else◌, Bool, true, false, not, Run, done, panic, ◌>>=◌,
  Option, none, some, Result, ok, err, List, [], ◌∷◌, ◌++◌,
}
use shmfd.Fd.Text.{
  Text, ℤ, pos, negsuc, same_i32, add_i32, as_i32, text_eq, parse_i32, to_string, split, join,
}

-- `ListenFd`
pub record ListenFd : Type 0 where
  pub fd_base : ℤ
  pub fd_len : ℤ
  pub names : List Text

-- `ListenInit`
pub record ListenInit (F : Type 0) : Type 0 where
  pub listen : ListenFd
  pub file : Option F
  pub target : ℤ

-- `Error`
pub data ListenError : Type 0 where
  bad_pid : ListenError
  bad_fd : ListenError
  bad_names : ListenError

-- A value of the environment: text, or bytes that are none, on which `to_str` fails.
pub data OsText : Type 0 where
  text : Text → OsText
  other : OsText

abbrev pub to_str : OsText → Option Text
to_str (text t) = some t
to_str other = none

-- The variables of the environment that `ListenFd::new` reads.
pub record Environment : Type 0 where
  pub listen_fds : Option OsText
  pub listen_pid : Option OsText
  pub listen_fdnames : Option OsText

-- The check of `LISTEN_PID` against the process's own number.
unfoldable pub pid_accepted : ℤ → Option OsText → Bool
pid_accepted own none = true
pid_accepted own (some other) = false
pid_accepted own (some (text t)) = elim (parse_i32 t) [ none ↦ false | some pid ↦ same_i32 pid own ]

-- The parse of `LISTEN_FDS`.
unfoldable pub count_of : Option Text → Option ℤ
count_of none = none
count_of (some t) = parse_i32 t

-- `ListenFd::new`, in a process of number `own`.
unfoldable pub listen_new : ℤ → Environment → Option (Result ListenFd ListenError)
listen_new own env = elim env.listen_fds [
  | none ↦ none
  | some count_text ↦
      if not (pid_accepted own env.listen_pid)
      then some (err bad_pid)
      else elim (count_of (to_str count_text)) [
        | none ↦ some (err bad_fd)
        | some count ↦ elim env.listen_fdnames [
          | none ↦ some (ok (record { fd_base = pos 3; fd_len = count; names = [] }))
          | some passed ↦ elim (to_str passed) [
            | none ↦ some (err bad_names)
            | some t ↦ some (ok (record { fd_base = pos 3; fd_len = count; names = split t }))
          ]
        ]
      ]
]

-- `names.iter().position(|n| n == fd_name)`
unfoldable pub position : Text → List Text → Option ℕ
position name [] = none
position name (n ∷ rest) =
    let further = position name rest in
    if text_eq n name then some 0 else elim further [ none ↦ none | some k ↦ some (suc k) ]

-- `ListenInit::named_or_try_create`; the closure creates the file, or fails.
unfoldable pub named_or_try_create :
    {F R : Type 0}
    → Option ListenFd
    → Text
    → (Unit {0} → Result F R)
    → Run (Result (ListenInit F) R)
named_or_try_create none fd_name create = elim (create tt) [
  | err e ↦ done (err e)
  | ok file ↦ done (
      ok (record {
        listen = record { fd_base = pos 3; fd_len = pos 1; names = fd_name ∷ [] };
        file = some file;
        target = pos 3;
      }))
]
named_or_try_create (some listen) fd_name create = elim (position fd_name listen.names) [
  | some k ↦ add_i32 listen.fd_base (as_i32 k) >>= λ target.
      done (ok (record { listen = listen; file = none; target = target }))
  | none ↦ elim (create tt) [
    | err e ↦ done (err e)
    | ok file ↦ do
      target ← add_i32 listen.fd_base listen.fd_len
      fd_len ← add_i32 listen.fd_len (pos 1)
      done (
          ok (record {
            listen = record {
              fd_base = listen.fd_base;
              fd_len = fd_len;
              names = listen.names ++ (fd_name ∷ []);
            };
            file = some file;
            target = target;
          }))
  ]
]

-- The environment of the child of `ListenInit::wrap_proc`: two variables are set, the rest is passed on.
unfoldable pub wrap_proc_env : {F : Type 0} → ListenInit F → Environment → Environment
wrap_proc_env init env = record env {
  listen_fds = some (text (to_string init.listen.fd_len));
  listen_fdnames = some (text (join init.listen.names));
}

-- "SHM_SHARED_FD"
abbrev pub shm_shared_fd : Text
shm_shared_fd = 83 ∷ 72 ∷ 77 ∷ 95 ∷ 83 ∷ 72 ∷ 65 ∷ 82 ∷ 69 ∷ 68 ∷ 95 ∷ 70 ∷ 68 ∷ []

-- `SharedFd::from_listen`; `is_open` says that `fstat` does not return -1 on a file descriptor.
unfoldable pub from_listen : (ℤ → Bool) → ListenFd → Run (Option ℤ)
from_listen is_open var = elim (position shm_shared_fd var.names) [
  | none ↦ done none
  | some k ↦ add_i32 var.fd_base (as_i32 k) >>= λ fd. done (if is_open fd then some fd else none)
]

-- `SharedFd::from_env`
unfoldable pub from_env : ℤ → (ℤ → Bool) → Environment → Run (Option ℤ)
from_env own is_open env = elim (listen_new own env) [
  | none ↦ done none
  | some (err e) ↦ done none
  | some (ok listen) ↦ from_listen is_open listen
]
