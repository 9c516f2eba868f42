-- ===== src/Base/Errors.antt =====
-- What a system call or a kernel routine returns: a value that is not negative, or an error number
-- (`libc/src/include/errno.h`), which the C code returns as a negative `int`.
use Prim.Native.Nat.{ℕ}

pub data Errno : Type 0 where
  eperm esrch eintr eio eagain enomem eacces efault ebusy einval epipe enotsup : Errno
  edeadlk eownerdead etimedout e2big echild : Errno

pub data Outcome : Type 0 where
  ok : ℕ → Outcome
  err : Errno → Outcome
