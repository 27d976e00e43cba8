-- ===== src/Fabric/InfoFields.antt =====
-- include/fabric.h: the attributes and `struct fi_info` as they lie in memory.
use xlibfabric.Base.{ℕ}
use xlibfabric.Machine.{Struct}

-- struct fi_info
pub data FiInfoField : Type 0 where
  next caps mode addr_format src_addrlen dest_addrlen src_addr dest_addr handle : FiInfoField
  tx_attr rx_attr ep_attr domain_attr fabric_attr nic : FiInfoField

abbrev pub fi_info_field_offset : FiInfoField → ℕ
fi_info_field_offset next = 0
fi_info_field_offset caps = 8
fi_info_field_offset mode = 16
fi_info_field_offset addr_format = 24
fi_info_field_offset src_addrlen = 32
fi_info_field_offset dest_addrlen = 40
fi_info_field_offset src_addr = 48
fi_info_field_offset dest_addr = 56
fi_info_field_offset handle = 64
fi_info_field_offset tx_attr = 72
fi_info_field_offset rx_attr = 80
fi_info_field_offset ep_attr = 88
fi_info_field_offset domain_attr = 96
fi_info_field_offset fabric_attr = 104
fi_info_field_offset nic = 112

instance abbrev pub fi_info_field_layout : Struct FiInfoField
fi_info_field_layout = record { offset = fi_info_field_offset; bytes = 120 }

-- struct fi_tx_attr
pub data FiTxAttrField : Type 0 where
  caps mode op_flags msg_order comp_order inject_size size iov_limit rma_iov_limit : FiTxAttrField
  tclass : FiTxAttrField

abbrev pub fi_tx_attr_field_offset : FiTxAttrField → ℕ
fi_tx_attr_field_offset caps = 0
fi_tx_attr_field_offset mode = 8
fi_tx_attr_field_offset op_flags = 16
fi_tx_attr_field_offset msg_order = 24
fi_tx_attr_field_offset comp_order = 32
fi_tx_attr_field_offset inject_size = 40
fi_tx_attr_field_offset size = 48
fi_tx_attr_field_offset iov_limit = 56
fi_tx_attr_field_offset rma_iov_limit = 64
fi_tx_attr_field_offset tclass = 72

instance abbrev pub fi_tx_attr_field_layout : Struct FiTxAttrField
fi_tx_attr_field_layout = record { offset = fi_tx_attr_field_offset; bytes = 80 }

-- struct fi_rx_attr
pub data FiRxAttrField : Type 0 where
  caps mode op_flags msg_order comp_order total_buffered_recv size iov_limit : FiRxAttrField

abbrev pub fi_rx_attr_field_offset : FiRxAttrField → ℕ
fi_rx_attr_field_offset caps = 0
fi_rx_attr_field_offset mode = 8
fi_rx_attr_field_offset op_flags = 16
fi_rx_attr_field_offset msg_order = 24
fi_rx_attr_field_offset comp_order = 32
fi_rx_attr_field_offset total_buffered_recv = 40
fi_rx_attr_field_offset size = 48
fi_rx_attr_field_offset iov_limit = 56

instance abbrev pub fi_rx_attr_field_layout : Struct FiRxAttrField
fi_rx_attr_field_layout = record { offset = fi_rx_attr_field_offset; bytes = 64 }

-- struct fi_ep_attr
pub data FiEpAttrField : Type 0 where
  type protocol protocol_version max_msg_size msg_prefix_size max_order_raw_size : FiEpAttrField
  max_order_war_size max_order_waw_size mem_tag_format tx_ctx_cnt rx_ctx_cnt : FiEpAttrField
  auth_key_size auth_key : FiEpAttrField

abbrev pub fi_ep_attr_field_offset : FiEpAttrField → ℕ
fi_ep_attr_field_offset type = 0
fi_ep_attr_field_offset protocol = 4
fi_ep_attr_field_offset protocol_version = 8
fi_ep_attr_field_offset max_msg_size = 16
fi_ep_attr_field_offset msg_prefix_size = 24
fi_ep_attr_field_offset max_order_raw_size = 32
fi_ep_attr_field_offset max_order_war_size = 40
fi_ep_attr_field_offset max_order_waw_size = 48
fi_ep_attr_field_offset mem_tag_format = 56
fi_ep_attr_field_offset tx_ctx_cnt = 64
fi_ep_attr_field_offset rx_ctx_cnt = 72
fi_ep_attr_field_offset auth_key_size = 80
fi_ep_attr_field_offset auth_key = 88

instance abbrev pub fi_ep_attr_field_layout : Struct FiEpAttrField
fi_ep_attr_field_layout = record { offset = fi_ep_attr_field_offset; bytes = 96 }

-- struct fi_domain_attr
pub data FiDomainAttrField : Type 0 where
  domain name threading control_progress data_progress resource_mgmt av_type mr_mode :
      FiDomainAttrField
  mr_key_size cq_data_size cq_cnt ep_cnt tx_ctx_cnt rx_ctx_cnt max_ep_tx_ctx : FiDomainAttrField
  max_ep_rx_ctx max_ep_stx_ctx max_ep_srx_ctx cntr_cnt mr_iov_limit caps mode : FiDomainAttrField
  auth_key auth_key_size max_err_data mr_cnt tclass : FiDomainAttrField

abbrev pub fi_domain_attr_field_offset : FiDomainAttrField → ℕ
fi_domain_attr_field_offset domain = 0
fi_domain_attr_field_offset name = 8
fi_domain_attr_field_offset threading = 16
fi_domain_attr_field_offset control_progress = 20
fi_domain_attr_field_offset data_progress = 24
fi_domain_attr_field_offset resource_mgmt = 28
fi_domain_attr_field_offset av_type = 32
fi_domain_attr_field_offset mr_mode = 36
fi_domain_attr_field_offset mr_key_size = 40
fi_domain_attr_field_offset cq_data_size = 48
fi_domain_attr_field_offset cq_cnt = 56
fi_domain_attr_field_offset ep_cnt = 64
fi_domain_attr_field_offset tx_ctx_cnt = 72
fi_domain_attr_field_offset rx_ctx_cnt = 80
fi_domain_attr_field_offset max_ep_tx_ctx = 88
fi_domain_attr_field_offset max_ep_rx_ctx = 96
fi_domain_attr_field_offset max_ep_stx_ctx = 104
fi_domain_attr_field_offset max_ep_srx_ctx = 112
fi_domain_attr_field_offset cntr_cnt = 120
fi_domain_attr_field_offset mr_iov_limit = 128
fi_domain_attr_field_offset caps = 136
fi_domain_attr_field_offset mode = 144
fi_domain_attr_field_offset auth_key = 152
fi_domain_attr_field_offset auth_key_size = 160
fi_domain_attr_field_offset max_err_data = 168
fi_domain_attr_field_offset mr_cnt = 176
fi_domain_attr_field_offset tclass = 184

instance abbrev pub fi_domain_attr_field_layout : Struct FiDomainAttrField
fi_domain_attr_field_layout = record { offset = fi_domain_attr_field_offset; bytes = 192 }
