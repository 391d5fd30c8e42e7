-- ===== src/Fd/Notify/Tests.antt =====
-- A service manager that takes every message, for shm-fd/src/notifyfd.rs.
use shmfd.Prelude.{◌+◌, ◌*◌, ◌/◌, some, ok, [], ◌∷◌, length}
use shmfd.Fd.Text.{ℤ, pos}
use shmfd.Fd.Listen.{ListenInit}
use shmfd.Fd.Tests.{sockets}
use shmfd.Fd.Notify.{NotifyFd, SocketCalls}

abbrev pub service : SocketCalls (Unit {0})
service = record {
  unbound = λ s. (ok (pos 8), s);
  connect = λ s fd name. (ok tt, s);
  sendmsg = λ s fd message. (pos (length message.payload), s);
  errno = λ s. pos 2;
  sol_socket = pos 1;
  scm_rights = pos 1;
  cmsg_space = λ n. 16 + (n + 7) / 8 * 8;
  cmsg_length = λ n. 16 + n;
}

abbrev init : ListenInit ℤ
init = record { listen = sockets; file = some (pos 7); target = pos 5 }

-- The path "/s".
abbrev notify : NotifyFd
notify = record { fd = pos 8; addr = 47 ∷ 115 ∷ [] }
