-- ===== src/Fd/Notify.antt =====
-- shm-fd/src/notifyfd.rs: the notify socket of the service manager, and `ListenInit::maybe_notify` of
-- shm-fd/src/listenfd.rs, which stores a new descriptor with it. Sockets are arguments: each call takes
-- their state and hands on the next one. A `c_char` is given by its byte.
pub mod Sends
pub mod Tests
use shmfd.Prelude.{
  ℕ, zero, suc, ◌-◌, ◌*◌, ◌^◌, ltb, leb, ◌==◌, if◌then◌else◌, min, Bool, true, false, Run, done,
  panic, assert, ◌>>=◌, ◌>>◌, Option, none, some, Result, ok, err, List, [], ◌∷◌, ◌++◌, length,
  take, replicate,
}
use shmfd.Fd.Text.{Text, ℤ, pos, negsuc, same_i32}
use shmfd.Fd.Listen.{ListenInit}

-- `NotifyFd`
pub record NotifyFd : Type 0 where
  pub fd : ℤ
  pub addr : List ℕ

-- `std::io::Error`: from the operating system, or of one of the kinds that the code makes.
pub data NotifyError : Type 0 where
  os_error : ℤ → NotifyError
  unsupported : NotifyError
  invalid_data : NotifyError

-- The control message: its header, and the descriptors that are copied behind it.
pub record ControlMessage : Type 0 where
  pub cmsg_level : ℤ
  pub cmsg_type : ℤ
  pub cmsg_len : ℕ
  pub fds : List ℤ

-- `msghdr` with what it points to.
pub record MessageHeader : Type 0 where
  pub payload : List ℕ
  pub sun_path : List ℕ
  pub controllen : ℕ
  pub control : Option ControlMessage

-- `UnixDatagram::unbound` and `connect`, `sendmsg` with MSG_NOSIGNAL, the number of the last error,
-- SOL_SOCKET and SCM_RIGHTS, and the macros CMSG_SPACE and CMSG_LEN.
pub record SocketCalls (S : Type 0) : Type 0 where
  pub unbound : S → Result ℤ ℤ × S
  pub connect : S → ℤ → List ℕ → Result (Unit {0}) ℤ × S
  pub sendmsg : S → ℤ → MessageHeader → ℤ × S
  pub errno : S → ℤ
  pub sol_socket : ℤ
  pub scm_rights : ℤ
  pub cmsg_space : ℕ → ℕ
  pub cmsg_length : ℕ → ℕ

-- The bytes of the address in the name, by its first byte, '/' or '@'.
unfoldable pub name_bytes : List ℕ → Option (List ℕ)
name_bytes [] = none
name_bytes (b ∷ rest) = if b == 47 then some (b ∷ rest) else if b == 64 then some rest else none

-- `sun_path`, which has 108 bytes: as many bytes of the address as fit, and zeros.
unfoldable pub sun_path_of : List ℕ → List ℕ
sun_path_of addr =
    let addr_len = min 108 (length addr) in take addr_len addr ++ replicate (108 - addr_len) 0

-- "FDSTORE=1\nFDNAME=" and the name.
unfoldable pub store_message : Text → Text
store_message fd_name =
    (70 ∷ 68 ∷ 83 ∷ 84 ∷ 79 ∷ 82 ∷ 69 ∷ 61 ∷ 49 ∷ 10 ∷ 70 ∷ 68 ∷ 78 ∷ 65 ∷ 77 ∷ 69 ∷ 61 ∷ [])
    ++ fd_name

module _ {S : Type 0} (calls : SocketCalls S) where
  -- `NotifyFd::from_env`
  unfoldable pub notify_from_env : S → List ℕ → Result NotifyFd NotifyError × S
  unfolding name_bytes
  notify_from_env s name = elim (name_bytes name) [
    | none ↦ (err unsupported, s)
    | some bytes ↦
        let (socket, s₁) = calls.unbound s in
        elim socket [
          | err e ↦ (err (os_error e), s₁)
          | ok fd ↦
              let (connected, s₂) = calls.connect s₁ fd bytes in
              elim connected [
                | err e ↦ (err (os_error e), s₂)
                | ok u ↦ (ok (record { fd = fd; addr = bytes }), s₂)
              ]
        ]
  ]

  -- `NotifyFd::new`, by the value of `NOTIFY_SOCKET`.
  unfoldable pub notify_new : S → Option (List ℕ) → Option (Result NotifyFd NotifyError) × S
  unfolding notify_from_env
  notify_new s none = (none, s)
  notify_new s (some addr) = let (result, s') = notify_from_env s addr in (some result, s')

  -- The size in bytes of the slice of descriptors, as a `u32`.
  unfoldable pub fds_size : List ℤ → Run ℕ
  fds_size fds = if ltb (4 * length fds) (2 ^ 32) then done (4 * length fds) else panic

  -- The message that `notify_with_fds` builds, with its assertion.
  unfoldable pub message_of : List ℕ → Text → List ℤ → Run MessageHeader
  unfolding fds_size sun_path_of
  message_of addr state fds = do
    len ← fds_size fds
    elim len [
      | zero ↦
          done (record {
            payload = state;
            sun_path = sun_path_of addr;
            controllen = 0;
            control = none;
          })
      | suc n ↦ do
        assert (leb (suc n) (calls.cmsg_length (suc n)))
        done (record {
          payload = state;
          sun_path = sun_path_of addr;
          controllen = calls.cmsg_space (suc n);
          control = some (record {
            cmsg_level = calls.sol_socket;
            cmsg_type = calls.scm_rights;
            cmsg_len = calls.cmsg_length (suc n);
            fds = fds;
          });
        })
    ]

  -- The answer of `sendmsg`.
  unfoldable pub sent_result : Text → ℤ × S → Result (Unit {0}) NotifyError × S
  sent_result state (negsuc n, s) =
      (if n == 0 then err (os_error (calls.errno s)) else err invalid_data, s)
  sent_result state (pos n, s) = (if n == length state then ok tt else err invalid_data, s)

  -- `NotifyFd::notify_with_fds`
  unfoldable pub notify_with_fds :
      S → NotifyFd → Text → List ℤ → Run (Result (Unit {0}) NotifyError × S)
  unfolding message_of sent_result
  notify_with_fds s notify state fds = message_of notify.addr state fds >>= λ header.
      done (sent_result state (calls.sendmsg s notify.fd header))

  -- `ListenInit::maybe_notify`
  unfoldable pub maybe_notify :
      S → ListenInit ℤ → NotifyFd → Text → Run (Result (Unit {0}) NotifyError × S)
  unfolding notify_with_fds store_message
  maybe_notify s init notify fd_name = elim init.file [
    | none ↦ done (ok tt, s)
    | some rawfd ↦ notify_with_fds s notify (store_message fd_name) (rawfd ∷ [])
  ]
