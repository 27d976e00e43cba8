-- ===== src/Errno/Codes.antt =====
-- The error numbers of libfabric do not collide with those of the system.
use xlibfabric.Base.{ℕ, ◌<◌, ◌≤◌, ◌≡◌, refl, Option, none, some, arith, ◌==◌, if◌then◌else◌}
use xlibfabric.Errno.{
  SystemError, FabricError, FiError, success, system, fabric, fi_errno_offset, fi_errno_max,
  fabric_code, code,
}

-- The error of libfabric with this number.
unfoldable pub fabric_error : ℕ → Option FabricError
fabric_error n =
    if n == 256
    then some FabricError.eother
    else if n == 257
    then some FabricError.etoosmall
    else if n == 258
    then some FabricError.eopbadstate
    else if n == 259
    then some FabricError.eavail
    else if n == 260
    then some FabricError.ebadflags
    else if n == 261
    then some FabricError.enoeq
    else if n == 262
    then some FabricError.edomain
    else if n == 263
    then some FabricError.enocq
    else if n == 264
    then some FabricError.ecrc
    else if n == 265
    then some FabricError.etrunc
    else if n == 266
    then some FabricError.enokey
    else if n == 267
    then some FabricError.enoav
    else if n == 268
    then some FabricError.eoverrun
    else none

abbrev pub own : FiError → Option FabricError
own success = none
own (system e) = none
own (fabric e) = some e

own_lem :
    (e : FabricError)
    → (fabric_error (fabric_code e) ≡ some e)
      × (fi_errno_offset ≤ fabric_code e)
      × (fabric_code e < fi_errno_max)
unfolding fabric_error fabric_code
own_lem FabricError.eother = (refl, omega arith, omega arith)
own_lem FabricError.etoosmall = (refl, omega arith, omega arith)
own_lem FabricError.eopbadstate = (refl, omega arith, omega arith)
own_lem FabricError.eavail = (refl, omega arith, omega arith)
own_lem FabricError.ebadflags = (refl, omega arith, omega arith)
own_lem FabricError.enoeq = (refl, omega arith, omega arith)
own_lem FabricError.edomain = (refl, omega arith, omega arith)
own_lem FabricError.enocq = (refl, omega arith, omega arith)
own_lem FabricError.ecrc = (refl, omega arith, omega arith)
own_lem FabricError.etrunc = (refl, omega arith, omega arith)
own_lem FabricError.enokey = (refl, omega arith, omega arith)
own_lem FabricError.enoav = (refl, omega arith, omega arith)
own_lem FabricError.eoverrun = (refl, omega arith, omega arith)

low_lem : (n : ℕ) → n < 256 → fabric_error n ≡ none
unfolding fabric_error
low_lem n low = ground arith

-- If the system's error numbers are below 256, then the number of every error lies below FI_ERRNO_MAX,
-- and tells whether it is one of libfabric's own, and which: no two of these have the same number, and
-- none has the number of a success or of an error of the system.
pub code-own :
    (errno : SystemError → ℕ)
    → ((e : SystemError) → errno e < 256)
    → (e : FiError) → (fabric_error (code errno e) ≡ own e) × (code errno e < fi_errno_max)
unfolding code
code-own errno low success = (low_lem 0 (omega arith), omega arith)
code-own errno low (system e) = (low_lem (errno e) (low e), omega (arith, low e))
code-own errno low (fabric e) = let (same, low, high) = own_lem e in (same, high)
