-- ===== src/Transfer/Collective.antt =====
-- The calls of include/fi_collective.h on collective operations, as data.
use xlibfabric.Base.{ℕ, ◌≡◌, Option, List, [], ◌∷◌, ℤ}
use xlibfabric.Machine.{Host, State, Method, M}
use xlibfabric.Machine.Dispatch.{Represents, perform, vcall-perform}
use xlibfabric.Endpoint.Layout.{FidEp, fid_ep_layout}
use xlibfabric.Collective.Layout.{FiOpsCollective, fi_ops_collective_layout}
use xlibfabric.Collective.{
  fi_barrier, fi_broadcast, fi_alltoall, fi_allreduce, fi_allgather, fi_reduce_scatter, fi_reduce,
  fi_scatter, fi_gather,
}

-- A constructor for each call, with its arguments but for the endpoint.
pub data CollectiveCall : Type 0 where
  barrier : (coll_addr context : ℕ) → CollectiveCall
  broadcast : (buf count desc coll_addr root_addr datatype flags context : ℕ) → CollectiveCall
  alltoall :
      (buf count desc result result_desc coll_addr datatype flags context : ℕ) → CollectiveCall
  allreduce :
      (buf count desc result result_desc coll_addr datatype op flags context : ℕ) → CollectiveCall
  allgather :
      (buf count desc result result_desc coll_addr datatype flags context : ℕ) → CollectiveCall
  reduce_scatter :
      (buf count desc result result_desc coll_addr datatype op flags context : ℕ) → CollectiveCall
  reduce :
      (buf count desc result result_desc coll_addr root_addr datatype op flags context : ℕ)
      → CollectiveCall
  scatter :
      (buf count desc result result_desc coll_addr root_addr datatype flags context : ℕ)
      → CollectiveCall
  gather :
      (buf count desc result result_desc coll_addr root_addr datatype flags context : ℕ)
      → CollectiveCall

-- The C function of the call.
unfoldable pub issue_collective : Host → (ep : ℕ) → CollectiveCall → M ℤ
issue_collective host ep (CollectiveCall.barrier coll_addr context) =
    fi_barrier host ep coll_addr context
issue_collective host ep
      (CollectiveCall.broadcast buf count desc coll_addr root_addr datatype flags context) =
    fi_broadcast host ep buf count desc coll_addr root_addr datatype flags context
issue_collective host ep
      (CollectiveCall.alltoall buf count desc result result_desc coll_addr datatype flags context) =
    fi_alltoall host ep buf count desc result result_desc coll_addr datatype flags context
issue_collective host ep
      (CollectiveCall.allreduce buf count desc result result_desc coll_addr datatype op flags
        context) =
    fi_allreduce host ep buf count desc result result_desc coll_addr datatype op flags context
issue_collective host ep
      (CollectiveCall.allgather buf count desc result result_desc coll_addr datatype flags
        context) =
    fi_allgather host ep buf count desc result result_desc coll_addr datatype flags context
issue_collective host ep
      (CollectiveCall.reduce_scatter buf count desc result result_desc coll_addr datatype op flags
        context) =
    fi_reduce_scatter host ep buf count desc result result_desc coll_addr datatype op flags context
issue_collective host ep
      (CollectiveCall.reduce buf count desc result result_desc coll_addr root_addr datatype op flags
        context) =
    fi_reduce host ep buf count desc result result_desc coll_addr root_addr datatype op flags
      context
issue_collective host ep
      (CollectiveCall.scatter buf count desc result result_desc coll_addr root_addr datatype flags
        context) =
    fi_scatter host ep buf count desc result result_desc coll_addr root_addr datatype flags context
issue_collective host ep
      (CollectiveCall.gather buf count desc result result_desc coll_addr root_addr datatype flags
        context) =
    fi_gather host ep buf count desc result result_desc coll_addr root_addr datatype flags context

-- The method that the call stands for, and its arguments.
abbrev pub collective_method : CollectiveCall → FiOpsCollective
collective_method (CollectiveCall.barrier coll_addr context) = FiOpsCollective.barrier
collective_method
      (CollectiveCall.broadcast buf count desc coll_addr root_addr datatype flags context) =
    FiOpsCollective.broadcast
collective_method
      (CollectiveCall.alltoall buf count desc result result_desc coll_addr datatype flags context) =
    FiOpsCollective.alltoall
collective_method
      (CollectiveCall.allreduce buf count desc result result_desc coll_addr datatype op flags
        context) =
    FiOpsCollective.allreduce
collective_method
      (CollectiveCall.allgather buf count desc result result_desc coll_addr datatype flags
        context) =
    FiOpsCollective.allgather
collective_method
      (CollectiveCall.reduce_scatter buf count desc result result_desc coll_addr datatype op flags
        context) =
    FiOpsCollective.reduce_scatter
collective_method
      (CollectiveCall.reduce buf count desc result result_desc coll_addr root_addr datatype op flags
        context) =
    FiOpsCollective.reduce
collective_method
      (CollectiveCall.scatter buf count desc result result_desc coll_addr root_addr datatype flags
        context) =
    FiOpsCollective.scatter
collective_method
      (CollectiveCall.gather buf count desc result result_desc coll_addr root_addr datatype flags
        context) =
    FiOpsCollective.gather

abbrev pub collective_words : (ep : ℕ) → CollectiveCall → List ℕ
collective_words ep (CollectiveCall.barrier coll_addr context) = ep ∷ coll_addr ∷ context ∷ []
collective_words ep
      (CollectiveCall.broadcast buf count desc coll_addr root_addr datatype flags context) =
    ep ∷ buf ∷ count ∷ desc ∷ coll_addr ∷ root_addr ∷ datatype ∷ flags ∷ context ∷ []
collective_words ep
      (CollectiveCall.alltoall buf count desc result result_desc coll_addr datatype flags context) =
    ep ∷ buf ∷ count ∷ desc ∷ result ∷ result_desc ∷ coll_addr ∷ datatype ∷ flags ∷ context ∷ []
collective_words ep
      (CollectiveCall.allreduce buf count desc result result_desc coll_addr datatype op flags
        context) =
    ep ∷ buf ∷ count ∷ desc ∷ result ∷ result_desc ∷ coll_addr ∷ datatype ∷ op ∷ flags ∷ context
    ∷ []
collective_words ep
      (CollectiveCall.allgather buf count desc result result_desc coll_addr datatype flags
        context) =
    ep ∷ buf ∷ count ∷ desc ∷ result ∷ result_desc ∷ coll_addr ∷ datatype ∷ flags ∷ context ∷ []
collective_words ep
      (CollectiveCall.reduce_scatter buf count desc result result_desc coll_addr datatype op flags
        context) =
    ep ∷ buf ∷ count ∷ desc ∷ result ∷ result_desc ∷ coll_addr ∷ datatype ∷ op ∷ flags ∷ context
    ∷ []
collective_words ep
      (CollectiveCall.reduce buf count desc result result_desc coll_addr root_addr datatype op flags
        context) =
    ep ∷ buf ∷ count ∷ desc ∷ result ∷ result_desc ∷ coll_addr ∷ root_addr ∷ datatype ∷ op ∷ flags
    ∷ context ∷ []
collective_words ep
      (CollectiveCall.scatter buf count desc result result_desc coll_addr root_addr datatype flags
        context) =
    ep ∷ buf ∷ count ∷ desc ∷ result ∷ result_desc ∷ coll_addr ∷ root_addr ∷ datatype ∷ flags
    ∷ context ∷ []
collective_words ep
      (CollectiveCall.gather buf count desc result result_desc coll_addr root_addr datatype flags
        context) =
    ep ∷ buf ∷ count ∷ desc ∷ result ∷ result_desc ∷ coll_addr ∷ root_addr ∷ datatype ∷ flags
    ∷ context ∷ []

module _ {host : Host} {s : State} {ep : ℕ} {methods : FiOpsCollective → Option Method}
    (r : Represents host s ep FidEp.collective methods) where
  pub issue_collective-perform :
      (c : CollectiveCall)
      → issue_collective host ep c s
        ≡ perform (methods (collective_method c)) (collective_words ep c) s
  unfolding issue_collective fi_barrier fi_broadcast fi_alltoall fi_allreduce fi_allgather
      fi_reduce_scatter fi_reduce fi_scatter fi_gather
  issue_collective-perform (CollectiveCall.barrier coll_addr context) =
      vcall-perform r FiOpsCollective.barrier _
  issue_collective-perform
        (CollectiveCall.broadcast buf count desc coll_addr root_addr datatype flags context) =
      vcall-perform r FiOpsCollective.broadcast _
  issue_collective-perform
        (CollectiveCall.alltoall buf count desc result result_desc coll_addr datatype flags
          context) =
      vcall-perform r FiOpsCollective.alltoall _
  issue_collective-perform
        (CollectiveCall.allreduce buf count desc result result_desc coll_addr datatype op flags
          context) =
      vcall-perform r FiOpsCollective.allreduce _
  issue_collective-perform
        (CollectiveCall.allgather buf count desc result result_desc coll_addr datatype flags
          context) =
      vcall-perform r FiOpsCollective.allgather _
  issue_collective-perform
        (CollectiveCall.reduce_scatter buf count desc result result_desc coll_addr datatype op flags
          context) =
      vcall-perform r FiOpsCollective.reduce_scatter _
  issue_collective-perform
        (CollectiveCall.reduce buf count desc result result_desc coll_addr root_addr datatype op
          flags context) =
      vcall-perform r FiOpsCollective.reduce _
  issue_collective-perform
        (CollectiveCall.scatter buf count desc result result_desc coll_addr root_addr datatype flags
          context) =
      vcall-perform r FiOpsCollective.scatter _
  issue_collective-perform
        (CollectiveCall.gather buf count desc result result_desc coll_addr root_addr datatype flags
          context) =
      vcall-perform r FiOpsCollective.gather _
