-- ===== src/Collective/Dispatch.antt =====
-- The inline functions of include/fi_collective.h call the method of their name.
use xlibfabric.Base.{ℕ, ◌≡◌, Option, [], ◌∷◌}
use xlibfabric.Machine.{Host, State, Method}
use xlibfabric.Machine.Dispatch.{Represents, perform, vcall-perform}
use xlibfabric.Endpoint.Layout.{FidEp, fid_ep_layout}
use xlibfabric.Collective.Layout.{
  FidAvSet, FiOpsAvSet, FiOpsCollective, fid_av_set_layout, fi_ops_av_set_layout,
  fi_ops_collective_layout,
}
use xlibfabric.Collective.{
  fi_av_set_union, fi_av_set_intersect, fi_av_set_diff, fi_av_set_insert, fi_av_set_remove,
  fi_av_set_addr, fi_barrier, fi_broadcast, fi_alltoall, fi_allreduce, fi_allgather,
  fi_reduce_scatter, fi_reduce, fi_scatter, fi_gather,
}

module _ {host : Host} {s : State} {set : ℕ} {methods : FiOpsAvSet → Option Method}
    (r : Represents host s set FidAvSet.ops methods) where
  -- On a set whose table represents abstract methods, the three set operations, insertion,
  -- removal and the address are the six methods of the table, called on the destination set.
  pub av_set-perform :
      (src addr coll_addr : ℕ)
      → (fi_av_set_union host set src s ≡ perform (methods FiOpsAvSet.set_union) (set ∷ src ∷ []) s)
        × (fi_av_set_intersect host set src s
            ≡ perform (methods FiOpsAvSet.intersect) (set ∷ src ∷ []) s)
        × (fi_av_set_diff host set src s ≡ perform (methods FiOpsAvSet.diff) (set ∷ src ∷ []) s)
        × (fi_av_set_insert host set addr s
            ≡ perform (methods FiOpsAvSet.insert) (set ∷ addr ∷ []) s)
        × (fi_av_set_remove host set addr s
            ≡ perform (methods FiOpsAvSet.remove) (set ∷ addr ∷ []) s)
        × (fi_av_set_addr host set coll_addr s
            ≡ perform (methods FiOpsAvSet.addr) (set ∷ coll_addr ∷ []) s)
  unfolding fi_av_set_union fi_av_set_intersect fi_av_set_diff fi_av_set_insert fi_av_set_remove
      fi_av_set_addr
  av_set-perform src addr coll_addr = (
    vcall-perform r FiOpsAvSet.set_union _,
    vcall-perform r FiOpsAvSet.intersect _,
    vcall-perform r FiOpsAvSet.diff _,
    vcall-perform r FiOpsAvSet.insert _,
    vcall-perform r FiOpsAvSet.remove _,
    vcall-perform r FiOpsAvSet.addr _,
  )

module _ {host : Host} {s : State} {ep : ℕ} {methods : FiOpsCollective → Option Method}
    (r : Represents host s ep FidEp.collective methods) where
  -- On an endpoint whose `collective` table represents abstract methods, the nine collective
  -- calls are the methods of those names, with the arguments in order.
  pub collective-perform :
      (coll_addr context buf count desc root_addr datatype flags result result_desc op : ℕ)
      → (fi_barrier host ep coll_addr context s
          ≡ perform (methods FiOpsCollective.barrier) (ep ∷ coll_addr ∷ context ∷ []) s)
        × (fi_broadcast host ep buf count desc coll_addr root_addr datatype flags context s
            ≡ perform
                (methods FiOpsCollective.broadcast)
                (ep ∷ buf ∷ count ∷ desc ∷ coll_addr ∷ root_addr ∷ datatype ∷ flags ∷ context ∷ [])
                s)
        × (fi_alltoall host ep buf count desc result result_desc coll_addr datatype flags context s
            ≡ perform
                (methods FiOpsCollective.alltoall)
                (ep ∷ buf ∷ count ∷ desc ∷ result ∷ result_desc ∷ coll_addr ∷ datatype ∷ flags
                  ∷ context ∷ [])
                s)
        × (fi_allreduce host ep buf count desc result result_desc coll_addr datatype op flags
              context s
            ≡ perform
                (methods FiOpsCollective.allreduce)
                (ep ∷ buf ∷ count ∷ desc ∷ result ∷ result_desc ∷ coll_addr ∷ datatype ∷ op ∷ flags
                  ∷ context ∷ [])
                s)
        × (fi_allgather host ep buf count desc result result_desc coll_addr datatype flags context s
            ≡ perform
                (methods FiOpsCollective.allgather)
                (ep ∷ buf ∷ count ∷ desc ∷ result ∷ result_desc ∷ coll_addr ∷ datatype ∷ flags
                  ∷ context ∷ [])
                s)
        × (fi_reduce_scatter host ep buf count desc result result_desc coll_addr datatype op flags
              context s
            ≡ perform
                (methods FiOpsCollective.reduce_scatter)
                (ep ∷ buf ∷ count ∷ desc ∷ result ∷ result_desc ∷ coll_addr ∷ datatype ∷ op ∷ flags
                  ∷ context ∷ [])
                s)
        × (fi_reduce host ep buf count desc result result_desc coll_addr root_addr datatype op flags
              context s
            ≡ perform
                (methods FiOpsCollective.reduce)
                (ep ∷ buf ∷ count ∷ desc ∷ result ∷ result_desc ∷ coll_addr ∷ root_addr ∷ datatype
                  ∷ op ∷ flags ∷ context ∷ [])
                s)
        × (fi_scatter host ep buf count desc result result_desc coll_addr root_addr datatype flags
              context s
            ≡ perform
                (methods FiOpsCollective.scatter)
                (ep ∷ buf ∷ count ∷ desc ∷ result ∷ result_desc ∷ coll_addr ∷ root_addr ∷ datatype
                  ∷ flags ∷ context ∷ [])
                s)
        × (fi_gather host ep buf count desc result result_desc coll_addr root_addr datatype flags
              context s
            ≡ perform
                (methods FiOpsCollective.gather)
                (ep ∷ buf ∷ count ∷ desc ∷ result ∷ result_desc ∷ coll_addr ∷ root_addr ∷ datatype
                  ∷ flags ∷ context ∷ [])
                s)
  unfolding fi_barrier fi_broadcast fi_alltoall fi_allreduce fi_allgather fi_reduce_scatter
      fi_reduce fi_scatter fi_gather
  collective-perform coll_addr context buf count desc root_addr datatype flags result result_desc
        op =
      (
        vcall-perform r FiOpsCollective.barrier _,
        vcall-perform r FiOpsCollective.broadcast _,
        vcall-perform r FiOpsCollective.alltoall _,
        vcall-perform r FiOpsCollective.allreduce _,
        vcall-perform r FiOpsCollective.allgather _,
        vcall-perform r FiOpsCollective.reduce_scatter _,
        vcall-perform r FiOpsCollective.reduce _,
        vcall-perform r FiOpsCollective.scatter _,
        vcall-perform r FiOpsCollective.gather _,
      )
