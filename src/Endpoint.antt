-- ===== src/Endpoint.antt =====
-- include/fi_endpoint.h: the inline functions on endpoints: creation, binding, options, aliases,
-- and messages.
pub mod Layout
pub mod Dispatch
pub mod Embedded
pub mod Alias
use Layout.{
  FiOpsEp, FiOpsMsg, FidEp, FidPep, fi_ops_ep_layout, fi_ops_msg_layout, fid_ep_layout,
  fid_pep_layout,
}
use xlibfabric.Base.{ℕ, List, [], ◌∷◌, ℤ, is_zero, if◌then◌else◌}
use xlibfabric.Machine.{
  Host, M, load, store, frame, vcall, addr_of, container_of, pure, ◌>>=◌, ◌>>◌,
}
use xlibfabric.Fabric.{fi_alias}
use xlibfabric.Fabric.Layout.{
  Fid, FiOps, FidFabric, FiOpsFabric, command_code, enable, fid_layout, fi_ops_layout,
  fid_fabric_layout, fi_ops_fabric_layout,
}
use xlibfabric.Domain.Layout.{FidDomain, FiOpsDomain, fid_domain_layout, fi_ops_domain_layout}

module _ (host : Host) where
  unfoldable pub fi_passive_ep : (fabric info pep context : ℕ) → M ℤ
  fi_passive_ep fabric info pep context =
      vcall host fabric FidFabric.ops FiOpsFabric.passive_ep (fabric ∷ info ∷ pep ∷ context ∷ [])

  unfoldable pub fi_endpoint : (domain info ep context : ℕ) → M ℤ
  fi_endpoint domain info ep context =
      vcall host domain FidDomain.ops FiOpsDomain.endpoint (domain ∷ info ∷ ep ∷ context ∷ [])

  unfoldable pub fi_scalable_ep : (domain info sep context : ℕ) → M ℤ
  fi_scalable_ep domain info sep context =
      vcall host domain FidDomain.ops FiOpsDomain.scalable_ep (domain ∷ info ∷ sep ∷ context ∷ [])

  unfoldable pub fi_ep_bind : (ep bfid flags : ℕ) → M ℤ
  fi_ep_bind ep bfid flags =
      vcall host (addr_of ep FidEp.fid) Fid.ops FiOps.bind
        ((addr_of ep FidEp.fid) ∷ bfid ∷ flags ∷ [])

  unfoldable pub fi_pep_bind : (pep bfid flags : ℕ) → M ℤ
  fi_pep_bind pep bfid flags =
      vcall host (addr_of pep FidPep.fid) Fid.ops FiOps.bind
        ((addr_of pep FidPep.fid) ∷ bfid ∷ flags ∷ [])

  unfoldable pub fi_scalable_ep_bind : (sep bfid flags : ℕ) → M ℤ
  fi_scalable_ep_bind sep bfid flags =
      vcall host (addr_of sep FidEp.fid) Fid.ops FiOps.bind
        ((addr_of sep FidEp.fid) ∷ bfid ∷ flags ∷ [])

  unfoldable pub fi_enable : (ep : ℕ) → M ℤ
  fi_enable ep =
      vcall host (addr_of ep FidEp.fid) Fid.ops FiOps.control
        ((addr_of ep FidEp.fid) ∷ command_code enable ∷ 0 ∷ [])

  unfoldable pub fi_cancel : (fid context : ℕ) → M ℤ
  fi_cancel fid context =
      vcall host (container_of fid FidEp.fid) FidEp.ops FiOpsEp.cancel (fid ∷ context ∷ [])

  unfoldable pub fi_setopt : (fid level optname optval optlen : ℕ) → M ℤ
  fi_setopt fid level optname optval optlen =
      vcall host (container_of fid FidEp.fid) FidEp.ops FiOpsEp.setopt
        (fid ∷ level ∷ optname ∷ optval ∷ optlen ∷ [])

  unfoldable pub fi_getopt : (fid level optname optval optlen : ℕ) → M ℤ
  fi_getopt fid level optname optval optlen =
      vcall host (container_of fid FidEp.fid) FidEp.ops FiOpsEp.getopt
        (fid ∷ level ∷ optname ∷ optval ∷ optlen ∷ [])

  unfoldable pub fi_ep_alias : (ep alias_ep flags : ℕ) → M ℤ
  fi_ep_alias ep alias_ep flags = frame 8 λ fid. do
    ret ← fi_alias host (addr_of ep FidEp.fid) fid flags
    if is_zero ret
        then (do alias ← load fid 0; store alias_ep (container_of alias FidEp.fid); pure ret)
        else pure ret

  unfoldable pub fi_tx_context : (ep idx attr tx_ep context : ℕ) → M ℤ
  fi_tx_context ep idx attr tx_ep context =
      vcall host ep FidEp.ops FiOpsEp.tx_ctx (ep ∷ idx ∷ attr ∷ tx_ep ∷ context ∷ [])

  unfoldable pub fi_rx_context : (ep idx attr rx_ep context : ℕ) → M ℤ
  fi_rx_context ep idx attr rx_ep context =
      vcall host ep FidEp.ops FiOpsEp.rx_ctx (ep ∷ idx ∷ attr ∷ rx_ep ∷ context ∷ [])

  unfoldable pub fi_rx_size_left : (ep : ℕ) → M ℤ
  fi_rx_size_left ep = vcall host ep FidEp.ops FiOpsEp.rx_size_left (ep ∷ [])

  unfoldable pub fi_tx_size_left : (ep : ℕ) → M ℤ
  fi_tx_size_left ep = vcall host ep FidEp.ops FiOpsEp.tx_size_left (ep ∷ [])

  unfoldable pub fi_stx_context : (domain attr stx context : ℕ) → M ℤ
  fi_stx_context domain attr stx context =
      vcall host domain FidDomain.ops FiOpsDomain.stx_ctx (domain ∷ attr ∷ stx ∷ context ∷ [])

  unfoldable pub fi_srx_context : (domain attr rx_ep context : ℕ) → M ℤ
  fi_srx_context domain attr rx_ep context =
      vcall host domain FidDomain.ops FiOpsDomain.srx_ctx (domain ∷ attr ∷ rx_ep ∷ context ∷ [])

  unfoldable pub fi_recv : (ep buf len desc src_addr context : ℕ) → M ℤ
  fi_recv ep buf len desc src_addr context =
      vcall host ep FidEp.msg FiOpsMsg.recv (ep ∷ buf ∷ len ∷ desc ∷ src_addr ∷ context ∷ [])

  unfoldable pub fi_recvv : (ep iov desc count src_addr context : ℕ) → M ℤ
  fi_recvv ep iov desc count src_addr context =
      vcall host ep FidEp.msg FiOpsMsg.recvv (ep ∷ iov ∷ desc ∷ count ∷ src_addr ∷ context ∷ [])

  unfoldable pub fi_recvmsg : (ep msg flags : ℕ) → M ℤ
  fi_recvmsg ep msg flags = vcall host ep FidEp.msg FiOpsMsg.recvmsg (ep ∷ msg ∷ flags ∷ [])

  unfoldable pub fi_send : (ep buf len desc dest_addr context : ℕ) → M ℤ
  fi_send ep buf len desc dest_addr context =
      vcall host ep FidEp.msg FiOpsMsg.send (ep ∷ buf ∷ len ∷ desc ∷ dest_addr ∷ context ∷ [])

  unfoldable pub fi_sendv : (ep iov desc count dest_addr context : ℕ) → M ℤ
  fi_sendv ep iov desc count dest_addr context =
      vcall host ep FidEp.msg FiOpsMsg.sendv (ep ∷ iov ∷ desc ∷ count ∷ dest_addr ∷ context ∷ [])

  unfoldable pub fi_sendmsg : (ep msg flags : ℕ) → M ℤ
  fi_sendmsg ep msg flags = vcall host ep FidEp.msg FiOpsMsg.sendmsg (ep ∷ msg ∷ flags ∷ [])

  unfoldable pub fi_inject : (ep buf len dest_addr : ℕ) → M ℤ
  fi_inject ep buf len dest_addr =
      vcall host ep FidEp.msg FiOpsMsg.inject (ep ∷ buf ∷ len ∷ dest_addr ∷ [])

  unfoldable pub fi_senddata : (ep buf len desc cq_data dest_addr context : ℕ) → M ℤ
  fi_senddata ep buf len desc cq_data dest_addr context =
      vcall host ep FidEp.msg FiOpsMsg.senddata
        (ep ∷ buf ∷ len ∷ desc ∷ cq_data ∷ dest_addr ∷ context ∷ [])

  unfoldable pub fi_injectdata : (ep buf len cq_data dest_addr : ℕ) → M ℤ
  fi_injectdata ep buf len cq_data dest_addr =
      vcall host ep FidEp.msg FiOpsMsg.injectdata (ep ∷ buf ∷ len ∷ cq_data ∷ dest_addr ∷ [])
