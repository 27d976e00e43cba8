-- ===== src/Scalable/Close.antt =====
-- src/Scalable.hs: closing of objects, and the release of the test's resources.
pub mod Order
use xlibfabric.Base.{ℕ, ◌+◌, ◌*◌, ℤ}
use xlibfabric.Machine.{Host, M, load, sizeof, addr_of, ◌>>=◌, ◌>>◌}
use xlibfabric.Fabric.{fi_close}
use xlibfabric.Endpoint.Layout.{FidEp, fid_ep_layout}
use xlibfabric.Eq.Layout.{FidCq, fid_cq_layout}
use xlibfabric.Scalable.{Env, map_m}

module _ (host : Host) where
  -- `close_fid` prints the result, and drops it.
  unfoldable pub close_fid : (fid : ℕ) → M ℤ
  close_fid fid = fi_close host fid

  unfoldable pub closev_fid_ep : (p n : ℕ) → M (Unit {0})
  closev_fid_ep p n = map_m (λ i. close_fid (addr_of (p + i * sizeof FidEp) FidEp.fid)) n 0

  unfoldable pub closev_fid_cq : (p n : ℕ) → M (Unit {0})
  closev_fid_cq p n = map_m (λ i. close_fid (addr_of (p + i * sizeof FidCq) FidCq.fid)) n 0

  unfoldable pub free_res : Env → M (Unit {0})
  free_res env = do
    r ← load env.rx_ep 0
    closev_fid_ep r env.ctx_cnt
    t ← load env.tx_ep 0
    closev_fid_ep t env.ctx_cnt
    r' ← load env.rxcq_array 0
    closev_fid_cq r' env.ctx_cnt
    t' ← load env.txcq_array 0
    closev_fid_cq t' env.ctx_cnt
