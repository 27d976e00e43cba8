-- ===== src/Errno.antt =====
-- include/fi_errno.h: the error numbers. Those of the system are a parameter.
pub mod Codes
use xlibfabric.Base.{ℕ}

-- The errors that have the number of an error of <errno.h>.
pub data SystemError : Type 0 where
  eperm enoent eintr eio e2big ebadf eagain enomem eacces efault ebusy enodev einval : SystemError
  emfile enospc enosys ewouldblock enomsg enodata eoverflow emsgsize enoprotoopt : SystemError
  eopnotsupp eaddrinuse eaddrnotavail enetdown enetunreach econnaborted econnreset : SystemError
  enobufs eisconn enotconn eshutdown etimedout econnrefused ehostdown ehostunreach : SystemError
  ealready einprogress eremoteio ecanceled ekeyrejected : SystemError

-- The errors of libfabric's own.
pub data FabricError : Type 0 where
  eother etoosmall eopbadstate eavail ebadflags enoeq edomain enocq ecrc etrunc : FabricError
  enokey enoav eoverrun : FabricError

pub data FiError : Type 0 where
  success : FiError
  system : SystemError → FiError
  fabric : FabricError → FiError

-- FI_ERRNO_OFFSET and FI_ERRNO_MAX.
abbrev pub fi_errno_offset : ℕ
fi_errno_offset = 256

abbrev pub fi_errno_max : ℕ
fi_errno_max = 269

unfoldable pub fabric_code : FabricError → ℕ
fabric_code eother = fi_errno_offset
fabric_code etoosmall = 257
fabric_code eopbadstate = 258
fabric_code eavail = 259
fabric_code ebadflags = 260
fabric_code enoeq = 261
fabric_code edomain = 262
fabric_code enocq = 263
fabric_code ecrc = 264
fabric_code etrunc = 265
fabric_code enokey = 266
fabric_code enoav = 267
fabric_code eoverrun = 268

unfoldable pub code : (errno : SystemError → ℕ) → FiError → ℕ
code errno success = 0
code errno (system e) = errno e
code errno (fabric e) = fabric_code e
