-- ===== src/Rma/Dispatch.antt =====
-- The inline functions of include/fi_rma.h call the method of their name.
use xlibfabric.Base.{ℕ, ◌≡◌, Option, [], ◌∷◌}
use xlibfabric.Machine.{Host, State, Method}
use xlibfabric.Machine.Dispatch.{Represents, perform, vcall-perform}
use xlibfabric.Endpoint.Layout.{FidEp, fid_ep_layout}
use xlibfabric.Rma.Layout.{FiOpsRma, fi_ops_rma_layout}
use xlibfabric.Rma.{
  fi_read, fi_readv, fi_readmsg, fi_write, fi_writev, fi_writemsg, fi_inject_write, fi_writedata,
  fi_inject_writedata,
}

module _ {host : Host} {s : State} {ep : ℕ} {methods : FiOpsRma → Option Method}
    (r : Represents host s ep FidEp.rma methods) where
  -- On an endpoint whose `rma` table represents abstract methods, the nine remote memory calls
  -- are the nine methods of that table, each called once on the endpoint with the arguments in
  -- order.
  pub rma-perform :
      (buf len desc src_addr addr key context iov count msg flags dest_addr cq_data : ℕ)
      → (fi_read host ep buf len desc src_addr addr key context s
          ≡ perform
              (methods FiOpsRma.read)
              (ep ∷ buf ∷ len ∷ desc ∷ src_addr ∷ addr ∷ key ∷ context ∷ [])
              s)
        × (fi_readv host ep iov desc count src_addr addr key context s
            ≡ perform
                (methods FiOpsRma.readv)
                (ep ∷ iov ∷ desc ∷ count ∷ src_addr ∷ addr ∷ key ∷ context ∷ [])
                s)
        × (fi_readmsg host ep msg flags s
            ≡ perform (methods FiOpsRma.readmsg) (ep ∷ msg ∷ flags ∷ []) s)
        × (fi_write host ep buf len desc dest_addr addr key context s
            ≡ perform
                (methods FiOpsRma.write)
                (ep ∷ buf ∷ len ∷ desc ∷ dest_addr ∷ addr ∷ key ∷ context ∷ [])
                s)
        × (fi_writev host ep iov desc count dest_addr addr key context s
            ≡ perform
                (methods FiOpsRma.writev)
                (ep ∷ iov ∷ desc ∷ count ∷ dest_addr ∷ addr ∷ key ∷ context ∷ [])
                s)
        × (fi_writemsg host ep msg flags s
            ≡ perform (methods FiOpsRma.writemsg) (ep ∷ msg ∷ flags ∷ []) s)
        × (fi_inject_write host ep buf len dest_addr addr key s
            ≡ perform (methods FiOpsRma.inject) (ep ∷ buf ∷ len ∷ dest_addr ∷ addr ∷ key ∷ []) s)
        × (fi_writedata host ep buf len desc cq_data dest_addr addr key context s
            ≡ perform
                (methods FiOpsRma.writedata)
                (ep ∷ buf ∷ len ∷ desc ∷ cq_data ∷ dest_addr ∷ addr ∷ key ∷ context ∷ [])
                s)
        × (fi_inject_writedata host ep buf len cq_data dest_addr addr key s
            ≡ perform
                (methods FiOpsRma.injectdata)
                (ep ∷ buf ∷ len ∷ cq_data ∷ dest_addr ∷ addr ∷ key ∷ [])
                s)
  unfolding fi_read fi_readv fi_readmsg fi_write fi_writev fi_writemsg fi_inject_write fi_writedata
      fi_inject_writedata
  rma-perform buf len desc src_addr addr key context iov count msg flags dest_addr cq_data = (
    vcall-perform r FiOpsRma.read _,
    vcall-perform r FiOpsRma.readv _,
    vcall-perform r FiOpsRma.readmsg _,
    vcall-perform r FiOpsRma.write _,
    vcall-perform r FiOpsRma.writev _,
    vcall-perform r FiOpsRma.writemsg _,
    vcall-perform r FiOpsRma.inject _,
    vcall-perform r FiOpsRma.writedata _,
    vcall-perform r FiOpsRma.injectdata _,
  )
