-- ===== src/Tagged/Dispatch.antt =====
-- The inline functions of include/fi_tagged.h call the method of their name.
use xlibfabric.Base.{ℕ, ◌≡◌, Option, [], ◌∷◌}
use xlibfabric.Machine.{Host, State, Method}
use xlibfabric.Machine.Dispatch.{Represents, perform, vcall-perform}
use xlibfabric.Endpoint.Layout.{FidEp, fid_ep_layout}
use xlibfabric.Tagged.Layout.{FiOpsTagged, fi_ops_tagged_layout}
use xlibfabric.Tagged.{
  fi_trecv, fi_trecvv, fi_trecvmsg, fi_tsend, fi_tsendv, fi_tsendmsg, fi_tinject, fi_tsenddata,
  fi_tinjectdata,
}

module _ {host : Host} {s : State} {ep : ℕ} {methods : FiOpsTagged → Option Method}
    (r : Represents host s ep FidEp.tagged methods) where
  -- On an endpoint whose `tagged` table represents abstract methods, the nine tagged calls are
  -- the nine methods of that table, each called once on the endpoint with the arguments in
  -- order.
  pub tagged-perform :
      (buf len desc src_addr tag ignore context iov count msg flags dest_addr cq_data : ℕ)
      → (fi_trecv host ep buf len desc src_addr tag ignore context s
          ≡ perform
              (methods FiOpsTagged.recv)
              (ep ∷ buf ∷ len ∷ desc ∷ src_addr ∷ tag ∷ ignore ∷ context ∷ [])
              s)
        × (fi_trecvv host ep iov desc count src_addr tag ignore context s
            ≡ perform
                (methods FiOpsTagged.recvv)
                (ep ∷ iov ∷ desc ∷ count ∷ src_addr ∷ tag ∷ ignore ∷ context ∷ [])
                s)
        × (fi_trecvmsg host ep msg flags s
            ≡ perform (methods FiOpsTagged.recvmsg) (ep ∷ msg ∷ flags ∷ []) s)
        × (fi_tsend host ep buf len desc dest_addr tag context s
            ≡ perform
                (methods FiOpsTagged.send)
                (ep ∷ buf ∷ len ∷ desc ∷ dest_addr ∷ tag ∷ context ∷ [])
                s)
        × (fi_tsendv host ep iov desc count dest_addr tag context s
            ≡ perform
                (methods FiOpsTagged.sendv)
                (ep ∷ iov ∷ desc ∷ count ∷ dest_addr ∷ tag ∷ context ∷ [])
                s)
        × (fi_tsendmsg host ep msg flags s
            ≡ perform (methods FiOpsTagged.sendmsg) (ep ∷ msg ∷ flags ∷ []) s)
        × (fi_tinject host ep buf len dest_addr tag s
            ≡ perform (methods FiOpsTagged.inject) (ep ∷ buf ∷ len ∷ dest_addr ∷ tag ∷ []) s)
        × (fi_tsenddata host ep buf len desc cq_data dest_addr tag context s
            ≡ perform
                (methods FiOpsTagged.senddata)
                (ep ∷ buf ∷ len ∷ desc ∷ cq_data ∷ dest_addr ∷ tag ∷ context ∷ [])
                s)
        × (fi_tinjectdata host ep buf len cq_data dest_addr tag s
            ≡ perform
                (methods FiOpsTagged.injectdata)
                (ep ∷ buf ∷ len ∷ cq_data ∷ dest_addr ∷ tag ∷ [])
                s)
  unfolding fi_trecv fi_trecvv fi_trecvmsg fi_tsend fi_tsendv fi_tsendmsg fi_tinject fi_tsenddata
      fi_tinjectdata
  tagged-perform buf len desc src_addr tag ignore context iov count msg flags dest_addr cq_data = (
    vcall-perform r FiOpsTagged.recv _,
    vcall-perform r FiOpsTagged.recvv _,
    vcall-perform r FiOpsTagged.recvmsg _,
    vcall-perform r FiOpsTagged.send _,
    vcall-perform r FiOpsTagged.sendv _,
    vcall-perform r FiOpsTagged.sendmsg _,
    vcall-perform r FiOpsTagged.inject _,
    vcall-perform r FiOpsTagged.senddata _,
    vcall-perform r FiOpsTagged.injectdata _,
  )
