-- ===== src/Rma.antt =====
-- include/fi_rma.h: remote memory access.
pub mod Layout
pub mod Dispatch
use Layout.{FiOpsRma, fi_ops_rma_layout}
use xlibfabric.Base.{ℕ, List, [], ◌∷◌, ℤ}
use xlibfabric.Machine.{Host, M, vcall}
use xlibfabric.Endpoint.Layout.{FidEp, fid_ep_layout}

module _ (host : Host) where
  unfoldable pub fi_read : (ep buf len desc src_addr addr key context : ℕ) → M ℤ
  fi_read ep buf len desc src_addr addr key context =
      vcall host ep FidEp.rma FiOpsRma.read
        (ep ∷ buf ∷ len ∷ desc ∷ src_addr ∷ addr ∷ key ∷ context ∷ [])

  unfoldable pub fi_readv : (ep iov desc count src_addr addr key context : ℕ) → M ℤ
  fi_readv ep iov desc count src_addr addr key context =
      vcall host ep FidEp.rma FiOpsRma.readv
        (ep ∷ iov ∷ desc ∷ count ∷ src_addr ∷ addr ∷ key ∷ context ∷ [])

  unfoldable pub fi_readmsg : (ep msg flags : ℕ) → M ℤ
  fi_readmsg ep msg flags = vcall host ep FidEp.rma FiOpsRma.readmsg (ep ∷ msg ∷ flags ∷ [])

  unfoldable pub fi_write : (ep buf len desc dest_addr addr key context : ℕ) → M ℤ
  fi_write ep buf len desc dest_addr addr key context =
      vcall host ep FidEp.rma FiOpsRma.write
        (ep ∷ buf ∷ len ∷ desc ∷ dest_addr ∷ addr ∷ key ∷ context ∷ [])

  unfoldable pub fi_writev : (ep iov desc count dest_addr addr key context : ℕ) → M ℤ
  fi_writev ep iov desc count dest_addr addr key context =
      vcall host ep FidEp.rma FiOpsRma.writev
        (ep ∷ iov ∷ desc ∷ count ∷ dest_addr ∷ addr ∷ key ∷ context ∷ [])

  unfoldable pub fi_writemsg : (ep msg flags : ℕ) → M ℤ
  fi_writemsg ep msg flags = vcall host ep FidEp.rma FiOpsRma.writemsg (ep ∷ msg ∷ flags ∷ [])

  unfoldable pub fi_inject_write : (ep buf len dest_addr addr key : ℕ) → M ℤ
  fi_inject_write ep buf len dest_addr addr key =
      vcall host ep FidEp.rma FiOpsRma.inject (ep ∷ buf ∷ len ∷ dest_addr ∷ addr ∷ key ∷ [])

  unfoldable pub fi_writedata : (ep buf len desc cq_data dest_addr addr key context : ℕ) → M ℤ
  fi_writedata ep buf len desc cq_data dest_addr addr key context =
      vcall host ep FidEp.rma FiOpsRma.writedata
        (ep ∷ buf ∷ len ∷ desc ∷ cq_data ∷ dest_addr ∷ addr ∷ key ∷ context ∷ [])

  unfoldable pub fi_inject_writedata : (ep buf len cq_data dest_addr addr key : ℕ) → M ℤ
  fi_inject_writedata ep buf len cq_data dest_addr addr key =
      vcall host ep FidEp.rma FiOpsRma.injectdata
        (ep ∷ buf ∷ len ∷ cq_data ∷ dest_addr ∷ addr ∷ key ∷ [])
