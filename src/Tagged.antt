-- ===== src/Tagged.antt =====
-- include/fi_tagged.h: tagged messages.
pub mod Layout
pub mod Dispatch
use Layout.{FiOpsTagged, fi_ops_tagged_layout}
use xlibfabric.Base.{ℕ, List, [], ◌∷◌, ℤ}
use xlibfabric.Machine.{Host, M, vcall}
use xlibfabric.Endpoint.Layout.{FidEp, fid_ep_layout}

module _ (host : Host) where
  unfoldable pub fi_trecv : (ep buf len desc src_addr tag ignore context : ℕ) → M ℤ
  fi_trecv ep buf len desc src_addr tag ignore context =
      vcall host ep FidEp.tagged FiOpsTagged.recv
        (ep ∷ buf ∷ len ∷ desc ∷ src_addr ∷ tag ∷ ignore ∷ context ∷ [])

  unfoldable pub fi_trecvv : (ep iov desc count src_addr tag ignore context : ℕ) → M ℤ
  fi_trecvv ep iov desc count src_addr tag ignore context =
      vcall host ep FidEp.tagged FiOpsTagged.recvv
        (ep ∷ iov ∷ desc ∷ count ∷ src_addr ∷ tag ∷ ignore ∷ context ∷ [])

  unfoldable pub fi_trecvmsg : (ep msg flags : ℕ) → M ℤ
  fi_trecvmsg ep msg flags = vcall host ep FidEp.tagged FiOpsTagged.recvmsg (ep ∷ msg ∷ flags ∷ [])

  unfoldable pub fi_tsend : (ep buf len desc dest_addr tag context : ℕ) → M ℤ
  fi_tsend ep buf len desc dest_addr tag context =
      vcall host ep FidEp.tagged FiOpsTagged.send
        (ep ∷ buf ∷ len ∷ desc ∷ dest_addr ∷ tag ∷ context ∷ [])

  unfoldable pub fi_tsendv : (ep iov desc count dest_addr tag context : ℕ) → M ℤ
  fi_tsendv ep iov desc count dest_addr tag context =
      vcall host ep FidEp.tagged FiOpsTagged.sendv
        (ep ∷ iov ∷ desc ∷ count ∷ dest_addr ∷ tag ∷ context ∷ [])

  unfoldable pub fi_tsendmsg : (ep msg flags : ℕ) → M ℤ
  fi_tsendmsg ep msg flags = vcall host ep FidEp.tagged FiOpsTagged.sendmsg (ep ∷ msg ∷ flags ∷ [])

  unfoldable pub fi_tinject : (ep buf len dest_addr tag : ℕ) → M ℤ
  fi_tinject ep buf len dest_addr tag =
      vcall host ep FidEp.tagged FiOpsTagged.inject (ep ∷ buf ∷ len ∷ dest_addr ∷ tag ∷ [])

  unfoldable pub fi_tsenddata : (ep buf len desc cq_data dest_addr tag context : ℕ) → M ℤ
  fi_tsenddata ep buf len desc cq_data dest_addr tag context =
      vcall host ep FidEp.tagged FiOpsTagged.senddata
        (ep ∷ buf ∷ len ∷ desc ∷ cq_data ∷ dest_addr ∷ tag ∷ context ∷ [])

  unfoldable pub fi_tinjectdata : (ep buf len cq_data dest_addr tag : ℕ) → M ℤ
  fi_tinjectdata ep buf len cq_data dest_addr tag =
      vcall host ep FidEp.tagged FiOpsTagged.injectdata
        (ep ∷ buf ∷ len ∷ cq_data ∷ dest_addr ∷ tag ∷ [])
