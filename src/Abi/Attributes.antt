-- ===== src/Abi/Attributes.antt =====
-- The declarations of the attributes and options in include/, whose offsets stand in Fabric/InfoFields,
-- Domain/AvAttr, Eq/Attr and Shared/OptsFields.
use xlibfabric.Base.{[], ◌∷◌}
use xlibfabric.Abi.{Model, int, u64, word, Members}
use xlibfabric.Fabric.InfoFields.{
  FiInfoField, fi_info_field_layout, FiTxAttrField, fi_tx_attr_field_layout, FiRxAttrField,
  fi_rx_attr_field_layout, FiEpAttrField, fi_ep_attr_field_layout, FiDomainAttrField,
  fi_domain_attr_field_layout,
}
use xlibfabric.Domain.AvAttr.{FiAvAttr, fi_av_attr_layout}
use xlibfabric.Eq.Attr.{
  FiEqAttr, fi_eq_attr_layout, FiCqAttr, fi_cq_attr_layout, FiCntrAttr, fi_cntr_attr_layout,
}
use xlibfabric.Shared.OptsFields.{FtOptsField, ft_opts_field_layout}

abbrev pub fi_info_members : Model → Members FiInfoField
fi_info_members m =
    (FiInfoField.next, word m)
    ∷ (FiInfoField.caps, u64)
    ∷ (FiInfoField.mode, u64)
    ∷ (FiInfoField.addr_format, int)
    ∷ (FiInfoField.src_addrlen, word m)
    ∷ (FiInfoField.dest_addrlen, word m)
    ∷ (FiInfoField.src_addr, word m)
    ∷ (FiInfoField.dest_addr, word m)
    ∷ (FiInfoField.handle, word m)
    ∷ (FiInfoField.tx_attr, word m)
    ∷ (FiInfoField.rx_attr, word m)
    ∷ (FiInfoField.ep_attr, word m)
    ∷ (FiInfoField.domain_attr, word m)
    ∷ (FiInfoField.fabric_attr, word m)
    ∷ (FiInfoField.nic, word m)
    ∷ []

abbrev pub fi_tx_attr_members : Model → Members FiTxAttrField
fi_tx_attr_members m =
    (FiTxAttrField.caps, u64)
    ∷ (FiTxAttrField.mode, u64)
    ∷ (FiTxAttrField.op_flags, u64)
    ∷ (FiTxAttrField.msg_order, u64)
    ∷ (FiTxAttrField.comp_order, u64)
    ∷ (FiTxAttrField.inject_size, word m)
    ∷ (FiTxAttrField.size, word m)
    ∷ (FiTxAttrField.iov_limit, word m)
    ∷ (FiTxAttrField.rma_iov_limit, word m)
    ∷ (FiTxAttrField.tclass, int)
    ∷ []

abbrev pub fi_rx_attr_members : Model → Members FiRxAttrField
fi_rx_attr_members m =
    (FiRxAttrField.caps, u64)
    ∷ (FiRxAttrField.mode, u64)
    ∷ (FiRxAttrField.op_flags, u64)
    ∷ (FiRxAttrField.msg_order, u64)
    ∷ (FiRxAttrField.comp_order, u64)
    ∷ (FiRxAttrField.total_buffered_recv, word m)
    ∷ (FiRxAttrField.size, word m)
    ∷ (FiRxAttrField.iov_limit, word m)
    ∷ []

abbrev pub fi_ep_attr_members : Model → Members FiEpAttrField
fi_ep_attr_members m =
    (FiEpAttrField.type, int)
    ∷ (FiEpAttrField.protocol, int)
    ∷ (FiEpAttrField.protocol_version, int)
    ∷ (FiEpAttrField.max_msg_size, word m)
    ∷ (FiEpAttrField.msg_prefix_size, word m)
    ∷ (FiEpAttrField.max_order_raw_size, word m)
    ∷ (FiEpAttrField.max_order_war_size, word m)
    ∷ (FiEpAttrField.max_order_waw_size, word m)
    ∷ (FiEpAttrField.mem_tag_format, u64)
    ∷ (FiEpAttrField.tx_ctx_cnt, word m)
    ∷ (FiEpAttrField.rx_ctx_cnt, word m)
    ∷ (FiEpAttrField.auth_key_size, word m)
    ∷ (FiEpAttrField.auth_key, word m)
    ∷ []

abbrev pub fi_domain_attr_members : Model → Members FiDomainAttrField
fi_domain_attr_members m =
    (FiDomainAttrField.domain, word m)
    ∷ (FiDomainAttrField.name, word m)
    ∷ (FiDomainAttrField.threading, int)
    ∷ (FiDomainAttrField.control_progress, int)
    ∷ (FiDomainAttrField.data_progress, int)
    ∷ (FiDomainAttrField.resource_mgmt, int)
    ∷ (FiDomainAttrField.av_type, int)
    ∷ (FiDomainAttrField.mr_mode, int)
    ∷ (FiDomainAttrField.mr_key_size, word m)
    ∷ (FiDomainAttrField.cq_data_size, word m)
    ∷ (FiDomainAttrField.cq_cnt, word m)
    ∷ (FiDomainAttrField.ep_cnt, word m)
    ∷ (FiDomainAttrField.tx_ctx_cnt, word m)
    ∷ (FiDomainAttrField.rx_ctx_cnt, word m)
    ∷ (FiDomainAttrField.max_ep_tx_ctx, word m)
    ∷ (FiDomainAttrField.max_ep_rx_ctx, word m)
    ∷ (FiDomainAttrField.max_ep_stx_ctx, word m)
    ∷ (FiDomainAttrField.max_ep_srx_ctx, word m)
    ∷ (FiDomainAttrField.cntr_cnt, word m)
    ∷ (FiDomainAttrField.mr_iov_limit, word m)
    ∷ (FiDomainAttrField.caps, u64)
    ∷ (FiDomainAttrField.mode, u64)
    ∷ (FiDomainAttrField.auth_key, word m)
    ∷ (FiDomainAttrField.auth_key_size, word m)
    ∷ (FiDomainAttrField.max_err_data, word m)
    ∷ (FiDomainAttrField.mr_cnt, word m)
    ∷ (FiDomainAttrField.tclass, int)
    ∷ []

abbrev pub fi_av_attr_members : Model → Members FiAvAttr
fi_av_attr_members m =
    (FiAvAttr.type, int)
    ∷ (FiAvAttr.rx_ctx_bits, int)
    ∷ (FiAvAttr.count, word m)
    ∷ (FiAvAttr.ep_per_node, word m)
    ∷ (FiAvAttr.name, word m)
    ∷ (FiAvAttr.map_addr, word m)
    ∷ (FiAvAttr.flags, u64)
    ∷ []

abbrev pub fi_eq_attr_members : Model → Members FiEqAttr
fi_eq_attr_members m =
    (FiEqAttr.size, word m)
    ∷ (FiEqAttr.flags, u64)
    ∷ (FiEqAttr.wait_obj, int)
    ∷ (FiEqAttr.signaling_vector, int)
    ∷ (FiEqAttr.wait_set, word m)
    ∷ []

abbrev pub fi_cq_attr_members : Model → Members FiCqAttr
fi_cq_attr_members m =
    (FiCqAttr.size, word m)
    ∷ (FiCqAttr.flags, u64)
    ∷ (FiCqAttr.format, int)
    ∷ (FiCqAttr.wait_obj, int)
    ∷ (FiCqAttr.signaling_vector, int)
    ∷ (FiCqAttr.wait_cond, int)
    ∷ (FiCqAttr.wait_set, word m)
    ∷ []

abbrev pub fi_cntr_attr_members : Model → Members FiCntrAttr
fi_cntr_attr_members m =
    (FiCntrAttr.events, int)
    ∷ (FiCntrAttr.wait_obj, int)
    ∷ (FiCntrAttr.wait_set, word m)
    ∷ (FiCntrAttr.flags, u64)
    ∷ []

abbrev pub ft_opts_members : Model → Members FtOptsField
ft_opts_members m =
    (FtOptsField.iterations, int)
    ∷ (FtOptsField.warmup_iterations, int)
    ∷ (FtOptsField.transfer_size, word m)
    ∷ (FtOptsField.window_size, int)
    ∷ (FtOptsField.av_size, int)
    ∷ (FtOptsField.verbose, int)
    ∷ (FtOptsField.tx_cq_size, int)
    ∷ (FtOptsField.rx_cq_size, int)
    ∷ (FtOptsField.src_port, word m)
    ∷ (FtOptsField.dst_port, word m)
    ∷ (FtOptsField.src_addr, word m)
    ∷ (FtOptsField.dst_addr, word m)
    ∷ (FtOptsField.av_name, word m)
    ∷ (FtOptsField.sizes_enabled, int)
    ∷ (FtOptsField.options, int)
    ∷ (FtOptsField.comp_method, int)
    ∷ (FtOptsField.machr, int)
    ∷ (FtOptsField.rma_op, int)
    ∷ (FtOptsField.oob_port, word m)
    ∷ (FtOptsField.argc, int)
    ∷ (FtOptsField.num_connections, int)
    ∷ (FtOptsField.address_format, int)
    ∷ (FtOptsField.mr_mode, u64)
    ∷ (FtOptsField.force_prefix, int)
    ∷ (FtOptsField.iface, int)
    ∷ (FtOptsField.device, u64)
    ∷ (FtOptsField.argv, word m)
    ∷ []
