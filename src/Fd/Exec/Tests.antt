-- ===== src/Fd/Exec/Tests.antt =====
-- A wrapper of shm-fd/src/main.rs that was passed two sockets.
use shmfd.Prelude.{
  ℕ, ◌≡◌, ◌≢◌, refl, if◌then◌else◌, Bool, false, Option, none, some, Result, ok, [], ◌∷◌, ◌==◌, not,
  ◌%◌, ◌++◌,
}
use shmfd.Fd.Text.{ℤ, pos, same_i32}
use shmfd.Fd.Listen.{ListenInit, Environment, wrap_proc_env, shm_shared_fd}
use shmfd.Fd.Tests.{sockets, inherited, child}
use shmfd.Fd.Exec.{FdCalls}
use shmfd.Fd.Exec.Table.{Table, same_i32_refl, same_i32-ne}

record Descriptors : Type 0 where
  files : ℤ → Option ℕ
  closes : ℤ → Bool

abbrev put {ℓ} : {A : Type ℓ} → (ℤ → A) → ℤ → A → ℤ → A
put f fd x g = if same_i32 g fd then x else f g

put-same {ℓ} : {A : Type ℓ} (f : ℤ → A) (fd : ℤ) (x : A) → put f fd x fd ≡ x
put-same f fd x = rw (same_i32_refl fd) refl

put-other {ℓ} : {A : Type ℓ} (f : ℤ → A) (fd : ℤ) (x : A) (g : ℤ) → g ≢ fd → put f fd x g ≡ f g
put-other f fd x g ne = rw (same_i32-ne g fd ne) refl

abbrev calls : FdCalls Descriptors
calls = record {
  dup2 = λ t old new.
      (new, record { files = put t.files new (t.files old); closes = put t.closes new false });
  get_flags = λ t fd. if t.closes fd then some 1 else some 0;
  set_flags = λ t fd flags. (pos 0, record t { closes = put t.closes fd (not (flags % 2 == 0)) });
  errno = λ t. pos 9;
  exec = λ t. record t { files = λ fd. if t.closes fd then none else t.files fd };
}

abbrev table : Table calls
table = record {
  file = λ t fd. t.files fd;
  on_exec = λ t fd. t.closes fd;
  dup2-target =
      λ t old new ne worked. (put-same t.files new (t.files old), put-same t.closes new false);
  dup2-others = λ t old new g ne.
      (put-other t.files new (t.files old) g ne, put-other t.closes new false g ne);
  set_flags-target = λ t fd worked. put-same t.closes fd false;
  set_flags-files = λ t fd flags g. refl;
  set_flags-others = λ t fd flags g ne. put-other t.closes fd _ g ne;
  exec-file = λ t fd. refl;
}

-- The descriptors up to 4 are open and are passed on, 7 is the new file 9 and is not.
abbrev before : Descriptors
before = record {
  files = λ fd. if same_i32 fd (pos 7) then some 9 else some 1;
  closes = λ fd. same_i32 fd (pos 7);
}

-- The wrapper is passed the sockets and makes descriptor 7, which its program has as 5.
abbrev env : Environment
env = wrap_proc_env child inherited

abbrev create : Unit {0} → Result ℤ ℤ
create u = ok (pos 7)

abbrev started : ListenInit ℤ
started = record {
  listen = record {
    fd_base = pos 3;
    fd_len = pos 3;
    names = sockets.names ++ (shm_shared_fd ∷ []);
  };
  file = some (pos 7);
  target = pos 5;
}

abbrev after : Descriptors
after = calls.exec (calls.dup2 before (pos 7) (pos 5)).1
