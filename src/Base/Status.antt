-- ===== src/Base/Status.antt =====
-- What a C function of the firmware returns: 0, or the negated errno value.

pub data Errno : Type 0 where
  eperm enoent eio eagain eacces ebusy eexist enodev einval enospc erange : Errno
  enomsg enodata ebadmsg emsgsize enotsup ealready etimedout eproto eoverflow enotconn : Errno

pub data Ret : Type 0 where
  ok : Ret
  fail : Errno → Ret

pub Ret-discrete : Discrete Ret
Ret-discrete = hlevel

-- A value, or the error that the call returns.
pub data Result {ℓ} (A : Type ℓ) : Type ℓ where
  done : A → Result A
  err : Errno → Result A
