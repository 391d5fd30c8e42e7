-- ===== src/Fd/Listen/Child.antt =====
-- What a child process finds in the environment that `wrap_proc` passes on, shm-fd/src/listenfd.rs.
use shmfd.Prelude.{
  ℕ, ◌+◌, ◌^◌, ◌<◌, ◌≡◌, ◌≢◌, refl, sym, ap, arith, if◌then◌else◌, Bool, true, inl, inr, done,
  Option, none, some, Result, ok, List, [], ◌∷◌, ◌++◌, length,
}
use shmfd.Fd.Text.{Text, ℤ, pos}
use shmfd.Fd.Text.Numbers.{parse_i32-to_string}
use shmfd.Fd.Text.Names.{NoColons, split-join, NoColons-++}
use shmfd.Fd.Listen.{
  ListenFd, ListenInit, Environment, count_of, pid_accepted, listen_new, position,
  named_or_try_create, wrap_proc_env, shm_shared_fd, from_listen, from_env,
}
use shmfd.Fd.Listen.Position.{
  Option-cases, position_nil, position-++, position-bound, add_i32_small, as_i32_small,
  shm_shared_fd-NoColon,
}

-- File descriptors from 3 on, each with a name that has no colon.
pub record IsListen (l : ListenFd) : Type 0 where
  pub base : l.fd_base ≡ pos 3
  pub count : l.fd_len ≡ pos (length l.names)
  pub plain : NoColons l.names

passed :
    {F : Type 0} (own : ℤ) (env : Environment) (init : ListenInit F) (names : List Text) (n : ℕ)
    → init.listen.fd_base ≡ pos 3
    → init.listen.fd_len ≡ pos n
    → n < 2 ^ 31
    → length names ≢ 0
    → init.listen.names ≡ names
    → NoColons names
    → pid_accepted own env.listen_pid ≡ true
    → listen_new own (wrap_proc_env init env) ≡ some (ok init.listen)
unfolding listen_new wrap_proc_env count_of
passed own env init [] n base count small ne named plain accepted = absurd (ne refl)
passed own env init (w ∷ ws) n base count small ne named plain accepted =
    let number = parse_i32-to_string n small in
    rw (accepted, count, number)
      (rw (wrap_proc_env, named, split-join w ws plain)
        (λ i. some (ok (record { fd_base = sym base i; fd_len = pos n; names = w ∷ ws }))))

-- A child whose environment `wrap_proc` set, and whose `LISTEN_PID` is not another process's, reads from
-- it the `ListenFd` of the parent, if this has file descriptors from 3 on, at least one and fewer than
-- 2 ^ 31, that all have names without colons.
pub listen_new-wrap_proc_env :
    {F : Type 0} (own : ℤ) (env : Environment) (init : ListenInit F)
    → IsListen init.listen
    → length init.listen.names < 2 ^ 31
    → length init.listen.names ≢ 0
    → pid_accepted own env.listen_pid ≡ true
    → listen_new own (wrap_proc_env init env) ≡ some (ok init.listen)
listen_new-wrap_proc_env own env init v small ne accepted =
    passed own env init init.listen.names (length init.listen.names) v.base v.count small ne refl
      v.plain accepted

-- What a child looks up that is started with the environment of `wrap_proc`: the file descriptor at
-- `target`, if it is open.
pub record ChildFinds {F R : Type 0} (this : Option ListenFd) (create : Unit {0} → Result F R)
    (own : ℤ) (is_open : ℤ → Bool) (env : Environment) : Type 0 where
  pub init : ListenInit F
  pub returns : named_or_try_create this shm_shared_fd create ≡ done (ok init)
  pub listen : IsListen init.listen
  pub finds :
      from_env own is_open (wrap_proc_env init env)
      ≡ done (if is_open init.target then some init.target else none)

found_in_child :
    {F : Type 0} (own : ℤ) (is_open : ℤ → Bool) (env : Environment) (init : ListenInit F) (k : ℕ)
    → IsListen init.listen
    → length init.listen.names < 2 ^ 30
    → position shm_shared_fd init.listen.names ≡ some k
    → init.target ≡ pos (3 + k)
    → pid_accepted own env.listen_pid ≡ true
    → from_env own is_open (wrap_proc_env init env)
      ≡ done (if is_open init.target then some init.target else none)
unfolding from_env from_listen
found_in_child own is_open env init k v small at_k target accepted =
    let bound = position-bound shm_shared_fd init.listen.names at_k in
    let child =
      passed own env init init.listen.names (length init.listen.names) v.base v.count (omega arith)
        (λ z. omega arith) refl v.plain accepted in
    rw (
      from_env,
      child,
      from_listen,
      at_k,
      v.base,
      as_i32_small k (omega arith),
      add_i32_small 3 k (omega arith),
      target,
    )

-- A process that was passed nothing, or descriptors that all have names.
abbrev pub IsPassed : Option ListenFd → Type 0
IsPassed none = Unit
IsPassed (some l) = IsListen l × (length l.names + 1 < 2 ^ 30)

length-snoc : (names : List Text) (name : Text) → length (names ++ (name ∷ [])) ≡ length names + 1
length-snoc [] name = refl
length-snoc (n ∷ names) name = let e = length-snoc names name in omega (arith, e)

-- A process that was passed nothing, or fewer than 2 ^ 30 - 1 file descriptors from 3 on that all have
-- names without colons, gets a `ListenInit`, if the file can be created. A child with the environment
-- that `wrap_proc` sets, whose `LISTEN_PID` is not another process's, then finds the shared memory file
-- at the number `target` of that `ListenInit`, if this is open, and none otherwise.
pub named_or_try_create-ChildFinds :
    {F R : Type 0} (this : Option ListenFd) (create : Unit {0} → Result F R) (file : F) (own : ℤ)
    (is_open : ℤ → Bool) (env : Environment)
    → IsPassed this
    → create tt ≡ ok file
    → pid_accepted own env.listen_pid ≡ true
    → ChildFinds this create own is_open env
unfolding named_or_try_create
named_or_try_create-ChildFinds {F} none create file own is_open env valid e accepted =
    let init : ListenInit F = record {
      listen = record { fd_base = pos 3; fd_len = pos 1; names = shm_shared_fd ∷ [] };
      file = some file;
      target = pos 3;
    } in
    let listen : IsListen init.listen = record {
      base = refl;
      count = refl;
      plain = (shm_shared_fd-NoColon, tt);
    } in
    record {
      init = init;
      returns = rw (named_or_try_create, e);
      listen = listen;
      finds =
          found_in_child own is_open env init 0 listen (omega arith)
            (position-++ shm_shared_fd [] (position_nil shm_shared_fd)) refl accepted;
    }
named_or_try_create-ChildFinds {F} (some l) create file own is_open env valid e accepted =
    elim (Option-cases (position shm_shared_fd l.names)) [
      | inr (k, at_k) ↦
          let bound = position-bound shm_shared_fd l.names at_k in
          let init : ListenInit F = record { listen = l; file = none; target = pos (3 + k) } in
          record {
            init = init;
            returns = rw (
              named_or_try_create,
              at_k,
              valid.0.base,
              as_i32_small k (omega (arith, bound, valid.1)),
              add_i32_small 3 k (omega (arith, bound, valid.1)),
            );
            listen = valid.0;
            finds =
                found_in_child own is_open env init k valid.0 (omega (arith, valid.1)) at_k refl
                  accepted;
          }
      | inl absent ↦
          let n = length l.names in
          let names' = l.names ++ (shm_shared_fd ∷ []) in
          let longer = length-snoc l.names shm_shared_fd in
          let init : ListenInit F = record {
            listen = record { fd_base = l.fd_base; fd_len = pos (n + 1); names = names' };
            file = some file;
            target = pos (3 + n);
          } in
          let listen : IsListen init.listen = record {
            base = valid.0.base;
            count = ap pos (sym longer);
            plain = NoColons-++ l.names shm_shared_fd valid.0.plain shm_shared_fd-NoColon;
          } in
          record {
            init = init;
            returns = rw (
              named_or_try_create,
              absent,
              e,
              valid.0.base,
              valid.0.count,
              add_i32_small 3 n (omega (arith, valid.1)),
              add_i32_small n 1 (omega (arith, valid.1)),
            );
            listen = listen;
            finds =
                found_in_child own is_open env init n listen (omega (arith, longer, valid.1))
                  (position-++ shm_shared_fd l.names absent) refl accepted;
          }
    ]

-- Where a process was passed fewer than 2 ^ 30 file descriptors without any names, `target` is the number
-- behind them, but a child with the environment that `wrap_proc` sets takes descriptor 3 for the shared
-- memory file, if that is open.
pub named_or_try_create-unnamed :
    {F R : Type 0} (create : Unit {0} → Result F R) (file : F) (n : ℕ) (own : ℤ)
    (is_open : ℤ → Bool) (env : Environment)
    → n < 2 ^ 30
    → create tt ≡ ok file
    → pid_accepted own env.listen_pid ≡ true
    → is_open (pos 3) ≡ true
    → (init : ListenInit F) × (named_or_try_create
          (some (record { fd_base = pos 3; fd_len = pos n; names = [] }))
          shm_shared_fd
          create
        ≡ done (ok init))
      × (init.target ≡ pos (3 + n))
      × (from_env own is_open (wrap_proc_env init env) ≡ done (some (pos 3)))
unfolding named_or_try_create from_env from_listen
named_or_try_create-unnamed {F} create file n own is_open env small e accepted opens =
    let init : ListenInit F = record {
      listen = record { fd_base = pos 3; fd_len = pos (n + 1); names = shm_shared_fd ∷ [] };
      file = some file;
      target = pos (3 + n);
    } in
    let child =
      passed own env init (shm_shared_fd ∷ []) (n + 1) refl refl (omega arith) (λ z. omega arith)
        refl (shm_shared_fd-NoColon, tt) accepted in
    let at_0 = position-++ shm_shared_fd [] (position_nil shm_shared_fd) in
    (
      init,
      rw (
        named_or_try_create,
        position_nil shm_shared_fd,
        e,
        add_i32_small 3 n (omega arith),
        add_i32_small n 1 (omega arith),
      ),
      refl,
      rw (
        from_env,
        child,
        from_listen,
        at_0,
        as_i32_small 0 (omega arith),
        add_i32_small 3 0 (omega arith),
        opens,
      ),
    )
