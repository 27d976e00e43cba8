-- ===== src/Atomic.antt =====
-- include/fi_atomic.h: remote atomic operations.
pub mod Layout
pub mod Dispatch
use Layout.{FiOpsAtomic, fi_ops_atomic_layout}
use xlibfabric.Base.{ℕ, List, [], ◌∷◌, ℤ}
use xlibfabric.Machine.{Host, M, vcall}
use xlibfabric.Fabric.CheckOp.{checked_vcall}
use xlibfabric.Domain.Layout.{FidDomain, FiOpsDomain, fid_domain_layout, fi_ops_domain_layout}
use xlibfabric.Endpoint.Layout.{FidEp, fid_ep_layout}

module _ (host : Host) where
  unfoldable pub fi_atomic : (ep buf count desc dest_addr addr key datatype op context : ℕ) → M ℤ
  fi_atomic ep buf count desc dest_addr addr key datatype op context =
      vcall host ep FidEp.atomic FiOpsAtomic.write
        (ep ∷ buf ∷ count ∷ desc ∷ dest_addr ∷ addr ∷ key ∷ datatype ∷ op ∷ context ∷ [])

  unfoldable pub fi_atomicv : (ep iov desc count dest_addr addr key datatype op context : ℕ) → M ℤ
  fi_atomicv ep iov desc count dest_addr addr key datatype op context =
      vcall host ep FidEp.atomic FiOpsAtomic.writev
        (ep ∷ iov ∷ desc ∷ count ∷ dest_addr ∷ addr ∷ key ∷ datatype ∷ op ∷ context ∷ [])

  unfoldable pub fi_atomicmsg : (ep msg flags : ℕ) → M ℤ
  fi_atomicmsg ep msg flags =
      vcall host ep FidEp.atomic FiOpsAtomic.writemsg (ep ∷ msg ∷ flags ∷ [])

  unfoldable pub fi_inject_atomic : (ep buf count dest_addr addr key datatype op : ℕ) → M ℤ
  fi_inject_atomic ep buf count dest_addr addr key datatype op =
      vcall host ep FidEp.atomic FiOpsAtomic.inject
        (ep ∷ buf ∷ count ∷ dest_addr ∷ addr ∷ key ∷ datatype ∷ op ∷ [])

  unfoldable pub fi_fetch_atomic :
      (ep buf count desc result result_desc dest_addr addr key datatype op context : ℕ) → M ℤ
  fi_fetch_atomic ep buf count desc result result_desc dest_addr addr key datatype op context =
      vcall host ep FidEp.atomic FiOpsAtomic.readwrite (
        ep ∷ buf ∷ count ∷ desc ∷ result ∷ result_desc ∷ dest_addr ∷ addr ∷ key ∷ datatype ∷ op
        ∷ context ∷ [])

  unfoldable pub fi_fetch_atomicv :
      (ep iov desc count resultv result_desc result_count dest_addr addr key datatype op
        context : ℕ)
      → M ℤ
  fi_fetch_atomicv ep iov desc count resultv result_desc result_count dest_addr addr key datatype op
        context =
      vcall host ep FidEp.atomic FiOpsAtomic.readwritev (
        ep ∷ iov ∷ desc ∷ count ∷ resultv ∷ result_desc ∷ result_count ∷ dest_addr ∷ addr ∷ key
        ∷ datatype ∷ op ∷ context ∷ [])

  unfoldable pub fi_fetch_atomicmsg : (ep msg resultv result_desc result_count flags : ℕ) → M ℤ
  fi_fetch_atomicmsg ep msg resultv result_desc result_count flags =
      vcall host ep FidEp.atomic FiOpsAtomic.readwritemsg
        (ep ∷ msg ∷ resultv ∷ result_desc ∷ result_count ∷ flags ∷ [])

  unfoldable pub fi_compare_atomic :
      (ep buf count desc compare compare_desc result result_desc dest_addr addr key datatype op
        context : ℕ)
      → M ℤ
  fi_compare_atomic ep buf count desc compare compare_desc result result_desc dest_addr addr key
        datatype op context =
      vcall host ep FidEp.atomic FiOpsAtomic.compwrite (
        ep ∷ buf ∷ count ∷ desc ∷ compare ∷ compare_desc ∷ result ∷ result_desc ∷ dest_addr ∷ addr
        ∷ key ∷ datatype ∷ op ∷ context ∷ [])

  unfoldable pub fi_compare_atomicv :
      (ep iov desc count comparev compare_desc compare_count resultv result_desc result_count
        dest_addr addr key datatype op context : ℕ)
      → M ℤ
  fi_compare_atomicv ep iov desc count comparev compare_desc compare_count resultv result_desc
        result_count dest_addr addr key datatype op context =
      vcall host ep FidEp.atomic FiOpsAtomic.compwritev (
        ep ∷ iov ∷ desc ∷ count ∷ comparev ∷ compare_desc ∷ compare_count ∷ resultv ∷ result_desc
        ∷ result_count ∷ dest_addr ∷ addr ∷ key ∷ datatype ∷ op ∷ context ∷ [])

  unfoldable pub fi_compare_atomicmsg :
      (ep msg comparev compare_desc compare_count resultv result_desc result_count flags : ℕ) → M ℤ
  fi_compare_atomicmsg ep msg comparev compare_desc compare_count resultv result_desc result_count
        flags =
      vcall host ep FidEp.atomic FiOpsAtomic.compwritemsg (
        ep ∷ msg ∷ comparev ∷ compare_desc ∷ compare_count ∷ resultv ∷ result_desc ∷ result_count
        ∷ flags ∷ [])

  unfoldable pub fi_atomicvalid : (ep datatype op count : ℕ) → M ℤ
  fi_atomicvalid ep datatype op count =
      vcall host ep FidEp.atomic FiOpsAtomic.writevalid (ep ∷ datatype ∷ op ∷ count ∷ [])

  unfoldable pub fi_fetch_atomicvalid : (ep datatype op count : ℕ) → M ℤ
  fi_fetch_atomicvalid ep datatype op count =
      vcall host ep FidEp.atomic FiOpsAtomic.readwritevalid (ep ∷ datatype ∷ op ∷ count ∷ [])

  unfoldable pub fi_compare_atomicvalid : (ep datatype op count : ℕ) → M ℤ
  fi_compare_atomicvalid ep datatype op count =
      vcall host ep FidEp.atomic FiOpsAtomic.compwritevalid (ep ∷ datatype ∷ op ∷ count ∷ [])

  unfoldable pub fi_query_atomic : (domain datatype op attr flags : ℕ) → M ℤ
  fi_query_atomic domain datatype op attr flags =
      checked_vcall host domain FidDomain.ops FiOpsDomain.query_atomic
        (domain ∷ datatype ∷ op ∷ attr ∷ flags ∷ [])
