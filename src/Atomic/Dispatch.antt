-- ===== src/Atomic/Dispatch.antt =====
-- The inline functions of include/fi_atomic.h call the method of their name.
use xlibfabric.Base.{ℕ, ◌≡◌, Option, [], ◌∷◌}
use xlibfabric.Machine.{Host, State, Method}
use xlibfabric.Machine.Dispatch.{Represents, perform, vcall-perform}
use xlibfabric.Endpoint.Layout.{FidEp, fid_ep_layout}
use xlibfabric.Atomic.Layout.{FiOpsAtomic, fi_ops_atomic_layout}
use xlibfabric.Atomic.{
  fi_atomic, fi_atomicv, fi_atomicmsg, fi_inject_atomic, fi_fetch_atomic, fi_fetch_atomicv,
  fi_fetch_atomicmsg, fi_compare_atomic, fi_compare_atomicv, fi_compare_atomicmsg, fi_atomicvalid,
  fi_fetch_atomicvalid, fi_compare_atomicvalid,
}

module _ {host : Host} {s : State} {ep : ℕ} {methods : FiOpsAtomic → Option Method}
    (r : Represents host s ep FidEp.atomic methods) where
  -- On an endpoint whose `atomic` table represents abstract methods, the thirteen atomic calls
  -- are the thirteen methods of that table: the plain, fetching and comparing families do not
  -- mix, each called once on the endpoint with the arguments in order.
  pub atomic-perform :
      (buf count desc dest_addr addr key datatype op context iov msg flags result result_desc
        resultv result_count compare compare_desc comparev compare_count : ℕ)
      → (fi_atomic host ep buf count desc dest_addr addr key datatype op context s
          ≡ perform
              (methods FiOpsAtomic.write)
              (ep ∷ buf ∷ count ∷ desc ∷ dest_addr ∷ addr ∷ key ∷ datatype ∷ op ∷ context ∷ [])
              s)
        × (fi_atomicv host ep iov desc count dest_addr addr key datatype op context s
            ≡ perform
                (methods FiOpsAtomic.writev)
                (ep ∷ iov ∷ desc ∷ count ∷ dest_addr ∷ addr ∷ key ∷ datatype ∷ op ∷ context ∷ [])
                s)
        × (fi_atomicmsg host ep msg flags s
            ≡ perform (methods FiOpsAtomic.writemsg) (ep ∷ msg ∷ flags ∷ []) s)
        × (fi_inject_atomic host ep buf count dest_addr addr key datatype op s
            ≡ perform
                (methods FiOpsAtomic.inject)
                (ep ∷ buf ∷ count ∷ dest_addr ∷ addr ∷ key ∷ datatype ∷ op ∷ [])
                s)
        × (fi_fetch_atomic host ep buf count desc result result_desc dest_addr addr key datatype op
              context s
            ≡ perform
                (methods FiOpsAtomic.readwrite)
                (ep ∷ buf ∷ count ∷ desc ∷ result ∷ result_desc ∷ dest_addr ∷ addr ∷ key ∷ datatype
                  ∷ op ∷ context ∷ [])
                s)
        × (fi_fetch_atomicv host ep iov desc count resultv result_desc result_count dest_addr addr
              key datatype op context s
            ≡ perform
                (methods FiOpsAtomic.readwritev)
                (ep ∷ iov ∷ desc ∷ count ∷ resultv ∷ result_desc ∷ result_count ∷ dest_addr ∷ addr
                  ∷ key ∷ datatype ∷ op ∷ context ∷ [])
                s)
        × (fi_fetch_atomicmsg host ep msg resultv result_desc result_count flags s
            ≡ perform
                (methods FiOpsAtomic.readwritemsg)
                (ep ∷ msg ∷ resultv ∷ result_desc ∷ result_count ∷ flags ∷ [])
                s)
        × (fi_compare_atomic host ep buf count desc compare compare_desc result result_desc
              dest_addr addr key datatype op context s
            ≡ perform
                (methods FiOpsAtomic.compwrite)
                (ep ∷ buf ∷ count ∷ desc ∷ compare ∷ compare_desc ∷ result ∷ result_desc ∷ dest_addr
                  ∷ addr ∷ key ∷ datatype ∷ op ∷ context ∷ [])
                s)
        × (fi_compare_atomicv host ep iov desc count comparev compare_desc compare_count resultv
              result_desc result_count dest_addr addr key datatype op context s
            ≡ perform
                (methods FiOpsAtomic.compwritev)
                (ep ∷ iov ∷ desc ∷ count ∷ comparev ∷ compare_desc ∷ compare_count ∷ resultv
                  ∷ result_desc ∷ result_count ∷ dest_addr ∷ addr ∷ key ∷ datatype ∷ op ∷ context
                  ∷ [])
                s)
        × (fi_compare_atomicmsg host ep msg comparev compare_desc compare_count resultv result_desc
              result_count flags s
            ≡ perform
                (methods FiOpsAtomic.compwritemsg)
                (ep ∷ msg ∷ comparev ∷ compare_desc ∷ compare_count ∷ resultv ∷ result_desc
                  ∷ result_count ∷ flags ∷ [])
                s)
        × (fi_atomicvalid host ep datatype op count s
            ≡ perform (methods FiOpsAtomic.writevalid) (ep ∷ datatype ∷ op ∷ count ∷ []) s)
        × (fi_fetch_atomicvalid host ep datatype op count s
            ≡ perform (methods FiOpsAtomic.readwritevalid) (ep ∷ datatype ∷ op ∷ count ∷ []) s)
        × (fi_compare_atomicvalid host ep datatype op count s
            ≡ perform (methods FiOpsAtomic.compwritevalid) (ep ∷ datatype ∷ op ∷ count ∷ []) s)
  unfolding fi_atomic fi_atomicv fi_atomicmsg fi_inject_atomic fi_fetch_atomic fi_fetch_atomicv
      fi_fetch_atomicmsg fi_compare_atomic fi_compare_atomicv fi_compare_atomicmsg fi_atomicvalid
      fi_fetch_atomicvalid fi_compare_atomicvalid
  atomic-perform buf count desc dest_addr addr key datatype op context iov msg flags result
        result_desc resultv result_count compare compare_desc comparev compare_count =
      (
        vcall-perform r FiOpsAtomic.write _,
        vcall-perform r FiOpsAtomic.writev _,
        vcall-perform r FiOpsAtomic.writemsg _,
        vcall-perform r FiOpsAtomic.inject _,
        vcall-perform r FiOpsAtomic.readwrite _,
        vcall-perform r FiOpsAtomic.readwritev _,
        vcall-perform r FiOpsAtomic.readwritemsg _,
        vcall-perform r FiOpsAtomic.compwrite _,
        vcall-perform r FiOpsAtomic.compwritev _,
        vcall-perform r FiOpsAtomic.compwritemsg _,
        vcall-perform r FiOpsAtomic.writevalid _,
        vcall-perform r FiOpsAtomic.readwritevalid _,
        vcall-perform r FiOpsAtomic.compwritevalid _,
      )
