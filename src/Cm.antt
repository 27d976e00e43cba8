-- ===== src/Cm.antt =====
-- include/fi_cm.h: connection management.
pub mod Layout
pub mod Dispatch
use Layout.{FiOpsCm, FidMc, fi_ops_cm_layout, fid_mc_layout}
use xlibfabric.Base.{ℕ, List, [], ◌∷◌, ℤ}
use xlibfabric.Machine.{Host, M, load, vcall, container_of, offsetof}
use xlibfabric.Fabric.CheckOp.{checked_vcall}
use xlibfabric.Endpoint.Layout.{FidEp, FidPep, fid_ep_layout, fid_pep_layout}

module _ (host : Host) where
  unfoldable pub fi_setname : (fid addr addrlen : ℕ) → M ℤ
  fi_setname fid addr addrlen =
      vcall host (container_of fid FidEp.fid) FidEp.cm FiOpsCm.setname (fid ∷ addr ∷ addrlen ∷ [])

  unfoldable pub fi_getname : (fid addr addrlen : ℕ) → M ℤ
  fi_getname fid addr addrlen =
      vcall host (container_of fid FidEp.fid) FidEp.cm FiOpsCm.getname (fid ∷ addr ∷ addrlen ∷ [])

  unfoldable pub fi_getpeer : (ep addr addrlen : ℕ) → M ℤ
  fi_getpeer ep addr addrlen = vcall host ep FidEp.cm FiOpsCm.getpeer (ep ∷ addr ∷ addrlen ∷ [])

  unfoldable pub fi_listen : (pep : ℕ) → M ℤ
  fi_listen pep = vcall host pep FidPep.cm FiOpsCm.listen (pep ∷ [])

  unfoldable pub fi_connect : (ep addr param paramlen : ℕ) → M ℤ
  fi_connect ep addr param paramlen =
      vcall host ep FidEp.cm FiOpsCm.connect (ep ∷ addr ∷ param ∷ paramlen ∷ [])

  unfoldable pub fi_accept : (ep param paramlen : ℕ) → M ℤ
  fi_accept ep param paramlen = vcall host ep FidEp.cm FiOpsCm.accept (ep ∷ param ∷ paramlen ∷ [])

  unfoldable pub fi_reject : (pep handle param paramlen : ℕ) → M ℤ
  fi_reject pep handle param paramlen =
      vcall host pep FidPep.cm FiOpsCm.reject (pep ∷ handle ∷ param ∷ paramlen ∷ [])

  unfoldable pub fi_shutdown : (ep flags : ℕ) → M ℤ
  fi_shutdown ep flags = vcall host ep FidEp.cm FiOpsCm.shutdown (ep ∷ flags ∷ [])

  unfoldable pub fi_join : (ep addr flags mc context : ℕ) → M ℤ
  fi_join ep addr flags mc context =
      checked_vcall host ep FidEp.cm FiOpsCm.join (ep ∷ addr ∷ flags ∷ mc ∷ context ∷ [])

  unfoldable pub fi_mc_addr : (mc : ℕ) → M ℕ
  fi_mc_addr mc = load mc (offsetof FidMc.fi_addr)
