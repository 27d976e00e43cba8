-- ===== src/Collective.antt =====
-- include/fi_collective.h: address vector sets and collective operations.
pub mod Layout
pub mod Dispatch
pub mod Join
use Layout.{
  FiOpsAvSet, FidAvSet, FiCollectiveAddr, FiOpsCollective, fi_ops_av_set_layout, fid_av_set_layout,
  fi_collective_addr_layout, fi_ops_collective_layout,
}
use xlibfabric.Base.{ℕ, List, [], ◌∷◌, ℤ, bit_or}
use xlibfabric.Machine.{Host, M, frame, assign, vcall, sizeof, addr_of, ◌>>◌}
use xlibfabric.Fabric.CheckOp.{checked_vcall}
use xlibfabric.Fabric.Flags.{fi_collective}
use xlibfabric.Domain.Layout.{
  FidAv, FiOpsAv, FidDomain, FiOpsDomain, fid_av_layout, fi_ops_av_layout, fid_domain_layout,
  fi_ops_domain_layout,
}
use xlibfabric.Endpoint.Layout.{FidEp, fid_ep_layout}
use xlibfabric.Cm.{fi_join}

module _ (host : Host) where
  unfoldable pub fi_av_set : (av attr set context : ℕ) → M ℤ
  fi_av_set av attr set context =
      checked_vcall host av FidAv.ops FiOpsAv.av_set (av ∷ attr ∷ set ∷ context ∷ [])

  unfoldable pub fi_av_set_union : (dst src : ℕ) → M ℤ
  fi_av_set_union dst src = vcall host dst FidAvSet.ops FiOpsAvSet.set_union (dst ∷ src ∷ [])

  unfoldable pub fi_av_set_intersect : (dst src : ℕ) → M ℤ
  fi_av_set_intersect dst src = vcall host dst FidAvSet.ops FiOpsAvSet.intersect (dst ∷ src ∷ [])

  unfoldable pub fi_av_set_diff : (dst src : ℕ) → M ℤ
  fi_av_set_diff dst src = vcall host dst FidAvSet.ops FiOpsAvSet.diff (dst ∷ src ∷ [])

  unfoldable pub fi_av_set_insert : (set addr : ℕ) → M ℤ
  fi_av_set_insert set addr = vcall host set FidAvSet.ops FiOpsAvSet.insert (set ∷ addr ∷ [])

  unfoldable pub fi_av_set_remove : (set addr : ℕ) → M ℤ
  fi_av_set_remove set addr = vcall host set FidAvSet.ops FiOpsAvSet.remove (set ∷ addr ∷ [])

  unfoldable pub fi_av_set_addr : (set coll_addr : ℕ) → M ℤ
  fi_av_set_addr set coll_addr = vcall host set FidAvSet.ops FiOpsAvSet.addr (set ∷ coll_addr ∷ [])

  unfoldable pub fi_join_collective : (ep coll_addr set flags mc context : ℕ) → M ℤ
  fi_join_collective ep coll_addr set flags mc context = frame (sizeof FiCollectiveAddr) λ addr. do
    assign (addr_of addr FiCollectiveAddr.set) set
    assign (addr_of addr FiCollectiveAddr.coll_addr) coll_addr
    fi_join host ep addr (bit_or flags fi_collective) mc context

  unfoldable pub fi_barrier : (ep coll_addr context : ℕ) → M ℤ
  fi_barrier ep coll_addr context =
      vcall host ep FidEp.collective FiOpsCollective.barrier (ep ∷ coll_addr ∷ context ∷ [])

  unfoldable pub fi_broadcast :
      (ep buf count desc coll_addr root_addr datatype flags context : ℕ) → M ℤ
  fi_broadcast ep buf count desc coll_addr root_addr datatype flags context =
      vcall host ep FidEp.collective FiOpsCollective.broadcast
        (ep ∷ buf ∷ count ∷ desc ∷ coll_addr ∷ root_addr ∷ datatype ∷ flags ∷ context ∷ [])

  unfoldable pub fi_alltoall :
      (ep buf count desc result result_desc coll_addr datatype flags context : ℕ) → M ℤ
  fi_alltoall ep buf count desc result result_desc coll_addr datatype flags context =
      vcall host ep FidEp.collective FiOpsCollective.alltoall (
        ep ∷ buf ∷ count ∷ desc ∷ result ∷ result_desc ∷ coll_addr ∷ datatype ∷ flags ∷ context
        ∷ [])

  unfoldable pub fi_allreduce :
      (ep buf count desc result result_desc coll_addr datatype op flags context : ℕ) → M ℤ
  fi_allreduce ep buf count desc result result_desc coll_addr datatype op flags context =
      vcall host ep FidEp.collective FiOpsCollective.allreduce (
        ep ∷ buf ∷ count ∷ desc ∷ result ∷ result_desc ∷ coll_addr ∷ datatype ∷ op ∷ flags ∷ context
        ∷ [])

  unfoldable pub fi_allgather :
      (ep buf count desc result result_desc coll_addr datatype flags context : ℕ) → M ℤ
  fi_allgather ep buf count desc result result_desc coll_addr datatype flags context =
      vcall host ep FidEp.collective FiOpsCollective.allgather (
        ep ∷ buf ∷ count ∷ desc ∷ result ∷ result_desc ∷ coll_addr ∷ datatype ∷ flags ∷ context
        ∷ [])

  unfoldable pub fi_reduce_scatter :
      (ep buf count desc result result_desc coll_addr datatype op flags context : ℕ) → M ℤ
  fi_reduce_scatter ep buf count desc result result_desc coll_addr datatype op flags context =
      vcall host ep FidEp.collective FiOpsCollective.reduce_scatter (
        ep ∷ buf ∷ count ∷ desc ∷ result ∷ result_desc ∷ coll_addr ∷ datatype ∷ op ∷ flags ∷ context
        ∷ [])

  unfoldable pub fi_reduce :
      (ep buf count desc result result_desc coll_addr root_addr datatype op flags context : ℕ) → M ℤ
  fi_reduce ep buf count desc result result_desc coll_addr root_addr datatype op flags context =
      vcall host ep FidEp.collective FiOpsCollective.reduce (
        ep ∷ buf ∷ count ∷ desc ∷ result ∷ result_desc ∷ coll_addr ∷ root_addr ∷ datatype ∷ op
        ∷ flags ∷ context ∷ [])

  unfoldable pub fi_scatter :
      (ep buf count desc result result_desc coll_addr root_addr datatype flags context : ℕ) → M ℤ
  fi_scatter ep buf count desc result result_desc coll_addr root_addr datatype flags context =
      vcall host ep FidEp.collective FiOpsCollective.scatter (
        ep ∷ buf ∷ count ∷ desc ∷ result ∷ result_desc ∷ coll_addr ∷ root_addr ∷ datatype ∷ flags
        ∷ context ∷ [])

  unfoldable pub fi_gather :
      (ep buf count desc result result_desc coll_addr root_addr datatype flags context : ℕ) → M ℤ
  fi_gather ep buf count desc result result_desc coll_addr root_addr datatype flags context =
      vcall host ep FidEp.collective FiOpsCollective.gather (
        ep ∷ buf ∷ count ∷ desc ∷ result ∷ result_desc ∷ coll_addr ∷ root_addr ∷ datatype ∷ flags
        ∷ context ∷ [])

  unfoldable pub fi_query_collective : (domain coll attr flags : ℕ) → M ℤ
  fi_query_collective domain coll attr flags =
      checked_vcall host domain FidDomain.ops FiOpsDomain.query_collective
        (domain ∷ coll ∷ attr ∷ flags ∷ [])
