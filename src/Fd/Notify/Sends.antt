-- ===== src/Fd/Notify/Sends.antt =====
-- What `ListenInit::maybe_notify` of shm-fd/src/listenfd.rs sends to the service manager, and which
-- socket `NotifyFd::from_env` of shm-fd/src/notifyfd.rs opens.
use shmfd.Prelude.{ℕ, zero, suc, ◌<◌, ◌≡◌, refl, some, List, [], ◌∷◌}
use shmfd.Fd.Text.{Text, ℤ}
use shmfd.Fd.Notify.{MessageHeader, SocketCalls, name_bytes, sun_path_of, notify_from_env}

-- A path as the kernel reads it: the bytes before the first zero.
abbrev pub until_nul : List ℕ → List ℕ
until_nul [] = []
until_nul (zero ∷ bs) = []
until_nul (suc b ∷ bs) = suc b ∷ until_nul bs

abbrev pub NoNul : List ℕ → Type 0
NoNul [] = Unit
NoNul (b ∷ bs) = (0 < b) × NoNul bs

-- The header of a message with one descriptor.
module _ {S : Type 0} (calls : SocketCalls S) (addr : List ℕ) (state : Text) (rawfd : ℤ) where
  abbrev pub header : MessageHeader
  header = record {
    payload = state;
    sun_path = sun_path_of addr;
    controllen = calls.cmsg_space 4;
    control = some (record {
      cmsg_level = calls.sol_socket;
      cmsg_type = calls.scm_rights;
      cmsg_len = calls.cmsg_length 4;
      fds = rawfd ∷ [];
    });
  }

-- A name of an abstract socket, which begins with '@', whose further bytes begin with '/', opens the
-- same socket as the path of those bytes: `from_env` gives the same result and makes the same calls for
-- both.
pub notify_from_env-abstract :
    {S : Type 0} (calls : SocketCalls S) (s : S) (rest : List ℕ)
    → notify_from_env calls s (64 ∷ 47 ∷ rest) ≡ notify_from_env calls s (47 ∷ rest)
unfolding notify_from_env name_bytes
notify_from_env-abstract calls s rest = refl
