-- ===== src/Shared/CloseFid.antt =====
-- include/shared.h: `FT_CLOSE_FID` and `FT_CLOSEV_FID`. What the macros print is left out; the read
-- of the object's class for the message is not.
pub mod All
use xlibfabric.Base.{ℕ, zero, suc, ◌+◌, ◌*◌, ◌==◌, if◌then◌else◌, is_zero}
use xlibfabric.Machine.{Host, M, Struct, load, store, addr_of, offsetof, pure, ◌>>=◌, ◌>>◌}
use xlibfabric.Fabric.{fi_close}
use xlibfabric.Fabric.Layout.{Fid, fid_layout}

module _ (host : Host) {F : Type 0} ⦃layout : Struct F⦄ where
  -- The result is the new value of the variable `fd`; `member` is its `fid` member.
  unfoldable pub ft_close_fid : (member : F) (fd : ℕ) → M ℕ
  ft_close_fid member fd = if fd == 0 then pure fd else do
    ret ← fi_close host (addr_of fd member)
    if is_zero ret
        then pure 0
        else (do fclass ← load (addr_of fd member) (offsetof Fid.fclass); pure 0)

  -- The rounds left of the loop at index `i`.
  unfoldable pub closev_loop : (member : F) (fd left i : ℕ) → M (Unit {0})
  closev_loop member fd zero i = pure tt
  closev_loop member fd (suc left) i = do
    p ← load fd (8 * i)
    q ← ft_close_fid member p
    store (fd + 8 * i) q
    closev_loop member fd left (i + 1)

  unfoldable pub ft_closev_fid : (member : F) (fd cnt : ℕ) → M (Unit {0})
  ft_closev_fid member fd cnt = if fd == 0 then pure tt else closev_loop member fd cnt 0
