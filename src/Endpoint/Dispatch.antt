-- ===== src/Endpoint/Dispatch.antt =====
-- The inline functions of include/fi_endpoint.h call the method of their name.
use xlibfabric.Base.{ℕ, ◌≡◌, Option, [], ◌∷◌}
use xlibfabric.Machine.{Host, State, Method}
use xlibfabric.Machine.Dispatch.{Represents, perform, vcall-perform}
use xlibfabric.Domain.Layout.{FidDomain, FiOpsDomain, fid_domain_layout, fi_ops_domain_layout}
use xlibfabric.Endpoint.Layout.{
  FidEp, FiOpsEp, FiOpsMsg, fid_ep_layout, fi_ops_ep_layout, fi_ops_msg_layout,
}
use xlibfabric.Endpoint.{
  fi_endpoint, fi_scalable_ep, fi_stx_context, fi_srx_context, fi_tx_context, fi_rx_context,
  fi_rx_size_left, fi_tx_size_left, fi_recv, fi_recvv, fi_recvmsg, fi_send, fi_sendv, fi_sendmsg,
  fi_inject, fi_senddata, fi_injectdata,
}

module _ {host : Host} {s : State} {domain : ℕ} {methods : FiOpsDomain → Option Method}
    (r : Represents host s domain FidDomain.ops methods) where
  -- On a domain whose table represents abstract methods, creating an endpoint, a scalable
  -- endpoint and shared contexts are the methods `endpoint`, `scalable_ep`, `stx_ctx` and
  -- `srx_ctx`.
  pub create-perform :
      (info ep context sep attr stx rx_ep : ℕ)
      → (fi_endpoint host domain info ep context s
          ≡ perform (methods FiOpsDomain.endpoint) (domain ∷ info ∷ ep ∷ context ∷ []) s)
        × (fi_scalable_ep host domain info sep context s
            ≡ perform (methods FiOpsDomain.scalable_ep) (domain ∷ info ∷ sep ∷ context ∷ []) s)
        × (fi_stx_context host domain attr stx context s
            ≡ perform (methods FiOpsDomain.stx_ctx) (domain ∷ attr ∷ stx ∷ context ∷ []) s)
        × (fi_srx_context host domain attr rx_ep context s
            ≡ perform (methods FiOpsDomain.srx_ctx) (domain ∷ attr ∷ rx_ep ∷ context ∷ []) s)
  unfolding fi_endpoint fi_scalable_ep fi_stx_context fi_srx_context
  create-perform info ep context sep attr stx rx_ep = (
    vcall-perform r FiOpsDomain.endpoint _,
    vcall-perform r FiOpsDomain.scalable_ep _,
    vcall-perform r FiOpsDomain.stx_ctx _,
    vcall-perform r FiOpsDomain.srx_ctx _,
  )

module _ {host : Host} {s : State} {ep : ℕ} {methods : FiOpsEp → Option Method}
    (r : Represents host s ep FidEp.ops methods) where
  -- On an endpoint whose `ops` table represents abstract methods, opening contexts and asking
  -- for free space are the methods `tx_ctx`, `rx_ctx`, `rx_size_left` and `tx_size_left`.
  pub ep_ops-perform :
      (idx attr tx_ep context rx_ep : ℕ)
      → (fi_tx_context host ep idx attr tx_ep context s
          ≡ perform (methods FiOpsEp.tx_ctx) (ep ∷ idx ∷ attr ∷ tx_ep ∷ context ∷ []) s)
        × (fi_rx_context host ep idx attr rx_ep context s
            ≡ perform (methods FiOpsEp.rx_ctx) (ep ∷ idx ∷ attr ∷ rx_ep ∷ context ∷ []) s)
        × (fi_rx_size_left host ep s ≡ perform (methods FiOpsEp.rx_size_left) (ep ∷ []) s)
        × (fi_tx_size_left host ep s ≡ perform (methods FiOpsEp.tx_size_left) (ep ∷ []) s)
  unfolding fi_tx_context fi_rx_context fi_rx_size_left fi_tx_size_left
  ep_ops-perform idx attr tx_ep context rx_ep = (
    vcall-perform r FiOpsEp.tx_ctx _,
    vcall-perform r FiOpsEp.rx_ctx _,
    vcall-perform r FiOpsEp.rx_size_left _,
    vcall-perform r FiOpsEp.tx_size_left _,
  )

module _ {host : Host} {s : State} {ep : ℕ} {methods : FiOpsMsg → Option Method}
    (r : Represents host s ep FidEp.msg methods) where
  -- On an endpoint whose `msg` table represents abstract methods, the nine message calls are
  -- the nine methods of that table, each called once on the endpoint with the arguments in
  -- order, and the result and the memory are those of the method. Where the entry is null the
  -- call is undefined.
  pub msg-perform :
      (buf len desc src_addr context iov count msg flags dest_addr cq_data : ℕ)
      → (fi_recv host ep buf len desc src_addr context s
          ≡ perform (methods FiOpsMsg.recv) (ep ∷ buf ∷ len ∷ desc ∷ src_addr ∷ context ∷ []) s)
        × (fi_recvv host ep iov desc count src_addr context s
            ≡ perform
                (methods FiOpsMsg.recvv)
                (ep ∷ iov ∷ desc ∷ count ∷ src_addr ∷ context ∷ [])
                s)
        × (fi_recvmsg host ep msg flags s
            ≡ perform (methods FiOpsMsg.recvmsg) (ep ∷ msg ∷ flags ∷ []) s)
        × (fi_send host ep buf len desc dest_addr context s
            ≡ perform (methods FiOpsMsg.send) (ep ∷ buf ∷ len ∷ desc ∷ dest_addr ∷ context ∷ []) s)
        × (fi_sendv host ep iov desc count dest_addr context s
            ≡ perform
                (methods FiOpsMsg.sendv)
                (ep ∷ iov ∷ desc ∷ count ∷ dest_addr ∷ context ∷ [])
                s)
        × (fi_sendmsg host ep msg flags s
            ≡ perform (methods FiOpsMsg.sendmsg) (ep ∷ msg ∷ flags ∷ []) s)
        × (fi_inject host ep buf len dest_addr s
            ≡ perform (methods FiOpsMsg.inject) (ep ∷ buf ∷ len ∷ dest_addr ∷ []) s)
        × (fi_senddata host ep buf len desc cq_data dest_addr context s
            ≡ perform
                (methods FiOpsMsg.senddata)
                (ep ∷ buf ∷ len ∷ desc ∷ cq_data ∷ dest_addr ∷ context ∷ [])
                s)
        × (fi_injectdata host ep buf len cq_data dest_addr s
            ≡ perform (methods FiOpsMsg.injectdata) (ep ∷ buf ∷ len ∷ cq_data ∷ dest_addr ∷ []) s)
  unfolding fi_recv fi_recvv fi_recvmsg fi_send fi_sendv fi_sendmsg fi_inject fi_senddata
      fi_injectdata
  msg-perform buf len desc src_addr context iov count msg flags dest_addr cq_data = (
    vcall-perform r FiOpsMsg.recv _,
    vcall-perform r FiOpsMsg.recvv _,
    vcall-perform r FiOpsMsg.recvmsg _,
    vcall-perform r FiOpsMsg.send _,
    vcall-perform r FiOpsMsg.sendv _,
    vcall-perform r FiOpsMsg.sendmsg _,
    vcall-perform r FiOpsMsg.inject _,
    vcall-perform r FiOpsMsg.senddata _,
    vcall-perform r FiOpsMsg.injectdata _,
  )
