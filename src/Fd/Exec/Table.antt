-- ===== src/Fd/Exec/Table.antt =====
-- The descriptors that reach a child: the closure of `wrap_proc` in shm-fd/src/listenfd.rs on the
-- descriptors of a process, by what the manual pages say of `dup2`, `fcntl` and `execve`.
use shmfd.Prelude.{
  subst, ne→not-==, ℕ, ◌≡◌, ◌≢◌, refl, sym, ap, ◌∙◌, arith, if◌then◌else◌, Bool, Bool-cases, true,
  false, inl, inr, Option, none, some, ok, err, ==→eq,
}
use shmfd.Fd.Text.{ℤ, pos, negsuc, same_i32}
use shmfd.Fd.Exec.{FdCalls, checked, pre_exec}

-- What a descriptor is open on, and whether it is closed on an exec. Calls that return -1 promise
-- nothing.
pub record Table {T : Type 0} (calls : FdCalls T) : Type 0 where
  pub file : T → ℤ → Option ℕ
  pub on_exec : T → ℤ → Bool
  pub dup2-target :
      (t : T) (old new : ℤ)
      → old ≢ new
      → same_i32 (calls.dup2 t old new).0 (negsuc 0) ≡ false
      → (file (calls.dup2 t old new).1 new ≡ file t old)
        × (on_exec (calls.dup2 t old new).1 new ≡ false)
  pub dup2-others :
      (t : T) (old new g : ℤ)
      → g ≢ new
      → (file (calls.dup2 t old new).1 g ≡ file t g)
        × (on_exec (calls.dup2 t old new).1 g ≡ on_exec t g)
  pub set_flags-target :
      (t : T) (fd : ℤ)
      → same_i32 (calls.set_flags t fd 0).0 (negsuc 0) ≡ false
      → on_exec (calls.set_flags t fd 0).1 fd ≡ false
  pub set_flags-files :
      (t : T) (fd : ℤ) (flags : ℕ) (g : ℤ) → file (calls.set_flags t fd flags).1 g ≡ file t g
  pub set_flags-others :
      (t : T) (fd : ℤ) (flags : ℕ) (g : ℤ)
      → g ≢ fd
      → on_exec (calls.set_flags t fd flags).1 g ≡ on_exec t g
  pub exec-file :
      (t : T) (fd : ℤ) → file (calls.exec t) fd ≡ (if on_exec t fd then none else file t fd)

same_i32→eq : (m n : ℤ) → same_i32 m n ≡ true → m ≡ n
same_i32→eq (pos m) (pos n) e = ap pos (==→eq m n e)
same_i32→eq (negsuc m) (negsuc n) e = ap negsuc (==→eq m n e)
same_i32→eq (pos m) (negsuc n) e = absurd cc
same_i32→eq (negsuc m) (pos n) e = absurd cc

pub same_i32_refl : (n : ℤ) → same_i32 n n ≡ true
same_i32_refl (pos n) = ground arith
same_i32_refl (negsuc n) = ground arith

pub same_i32-ne : (m n : ℤ) → m ≢ n → same_i32 m n ≡ false
same_i32-ne (pos m) (pos n) ne = ne→not-== m n (λ e. ne (ap pos e))
same_i32-ne (negsuc m) (negsuc n) ne = ne→not-== m n (λ e. ne (ap negsuc e))
same_i32-ne (pos m) (negsuc n) ne = refl
same_i32-ne (negsuc m) (pos n) ne = refl

same_i32-false→ne : (m n : ℤ) → same_i32 m n ≡ false → m ≢ n
same_i32-false→ne m n e q =
    let r = same_i32_refl n in
    let x : same_i32 m n ≡ same_i32 n n = ap (λ (z : ℤ). same_i32 z n) q in cc

module _ {T : Type 0} (calls : FdCalls T) (k : Table calls) where
  -- A call that is checked without an error did not return -1.
  checked-ok : (r : ℤ × T) → (checked calls r).0 ≡ ok tt → same_i32 r.0 (negsuc 0) ≡ false
  checked-ok r e = elim (Bool-cases (same_i32 r.0 (negsuc 0))) [
    | inl failed ↦ let b : (checked calls r).0 ≡ err (calls.errno r.1) = rw failed refl in absurd cc
    | inr worked ↦ worked
  ]

  exec-kept : (t : T) (fd : ℤ) → k.on_exec t fd ≡ false → k.file (calls.exec t) fd ≡ k.file t fd
  exec-kept t fd stays = k.exec-file t fd ∙ rw stays refl

  exec-same :
      (t t' : T) (fd : ℤ)
      → k.file t' fd ≡ k.file t fd
      → k.on_exec t' fd ≡ k.on_exec t fd
      → k.file (calls.exec t') fd ≡ k.file (calls.exec t) fd
  exec-same t t' fd same flag = k.exec-file t' fd ∙ rw (same, flag) (sym (k.exec-file t fd))

  -- The child of `t'` has at `target` what `rawfd` is open on, and else what the child of `t` has.
  pub record Inherits (t t' : T) (rawfd target : ℤ) : Type 0 where
    pub at_target : k.file (calls.exec t') target ≡ k.file t rawfd
    pub elsewhere : (g : ℤ) → g ≢ target → k.file (calls.exec t') g ≡ k.file (calls.exec t) g

  set_flags-Inherits :
      (t : T) (fd : ℤ)
      → same_i32 (calls.set_flags t fd 0).0 (negsuc 0) ≡ false
      → Inherits t (calls.set_flags t fd 0).1 fd fd
  set_flags-Inherits t fd worked = record {
    at_target =
        exec-kept (calls.set_flags t fd 0).1 fd (k.set_flags-target t fd worked)
        ∙ k.set_flags-files t fd 0 fd;
    elsewhere = λ g ne.
        exec-same t (calls.set_flags t fd 0).1 g (k.set_flags-files t fd 0 g)
          (k.set_flags-others t fd 0 g ne);
  }

  dup2-Inherits :
      (t : T) (old new : ℤ)
      → old ≢ new
      → same_i32 (calls.dup2 t old new).0 (negsuc 0) ≡ false
      → Inherits t (calls.dup2 t old new).1 old new
  dup2-Inherits t old new ne worked = record {
    at_target =
        exec-kept (calls.dup2 t old new).1 new (k.dup2-target t old new ne worked).1
        ∙ (k.dup2-target t old new ne worked).0;
    elsewhere = λ g other.
        exec-same t (calls.dup2 t old new).1 g (k.dup2-others t old new g other).0
          (k.dup2-others t old new g other).1;
  }

-- When the closure of `wrap_proc` does not fail, for a new descriptor at `target` or elsewhere, a child
-- has at `target` after the exec what that descriptor is open on before, and at every other number
-- what it would have without the closure.
pub pre_exec-Inherits :
    {T : Type 0} (calls : FdCalls T) (k : Table calls) (rawfd target : ℤ) (t : T)
    → (pre_exec calls (some rawfd) target t).0 ≡ ok tt
    → Inherits calls k t (pre_exec calls (some rawfd) target t).1 rawfd target
unfolding pre_exec
pre_exec-Inherits calls k rawfd target t e = elim (Bool-cases (same_i32 rawfd target)) [
  | inl same ↦
      let e' : (checked calls (calls.set_flags t rawfd 0)).0 ≡ ok tt = sym (rw same refl) ∙ e in
      rw same (
        subst (λ (x : ℤ). Inherits calls k t (calls.set_flags t rawfd 0).1 rawfd x)
          (same_i32→eq rawfd target same)
          (set_flags-Inherits calls k t rawfd (checked-ok calls k (calls.set_flags t rawfd 0) e')))
  | inr other ↦
      let e' : (checked calls (calls.dup2 t rawfd target)).0 ≡ ok tt = sym (rw other refl) ∙ e in
      rw other (
        dup2-Inherits calls k t rawfd target (same_i32-false→ne rawfd target other)
          (checked-ok calls k (calls.dup2 t rawfd target) e'))
]
