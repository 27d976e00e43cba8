-- ===== src/Examples/Info.antt =====
-- A concrete `struct fi_info`.
use xlibfabric.Fabric.Info.{FiTxAttr, FiRxAttr, FiEpAttr, FiDomainAttr, FiFabricAttr, FiInfo}

abbrev tx_attr : FiTxAttr
tx_attr = record {
  caps = 0;
  mode = 0x400000000000000;
  op_flags = 0;
  msg_order = 0;
  comp_order = 0;
  inject_size = 0;
  size = 64;
  iov_limit = 0;
  rma_iov_limit = 0;
  tclass = 0;
}

abbrev rx_attr : FiRxAttr
rx_attr = record {
  caps = 0;
  mode = 0;
  op_flags = 0;
  msg_order = 0;
  comp_order = 0;
  total_buffered_recv = 0;
  size = 64;
  iov_limit = 0;
}

abbrev ep_attr : FiEpAttr
ep_attr = record {
  type = 0;
  protocol = 0;
  protocol_version = 0;
  max_msg_size = 65536;
  msg_prefix_size = 0;
  max_order_raw_size = 0;
  max_order_war_size = 0;
  max_order_waw_size = 0;
  mem_tag_format = 0;
  tx_ctx_cnt = 0;
  rx_ctx_cnt = 0;
  auth_key_size = 0;
  auth_key = 0;
}

abbrev domain_attr : FiDomainAttr
domain_attr = record {
  domain = 0;
  name = 0;
  threading = 0;
  control_progress = 0;
  data_progress = 0;
  resource_mgmt = 0;
  av_type = 0;
  mr_mode = 0;
  mr_key_size = 0;
  cq_data_size = 0;
  cq_cnt = 0;
  ep_cnt = 0;
  tx_ctx_cnt = 0;
  rx_ctx_cnt = 0;
  max_ep_tx_ctx = 0;
  max_ep_rx_ctx = 0;
  max_ep_stx_ctx = 0;
  max_ep_srx_ctx = 0;
  cntr_cnt = 0;
  mr_iov_limit = 0;
  caps = 0;
  mode = 0;
  auth_key = 0;
  auth_key_size = 0;
  max_err_data = 0;
  mr_cnt = 0;
  tclass = 0;
}

abbrev fabric_attr : FiFabricAttr
fabric_attr = record { fabric = 0; name = 0; prov_name = 0; prov_version = 0; api_version = 0 }

-- An info whose transmit mode has the prefix bit, and whose receive mode lacks it.
abbrev pub demo_info : FiInfo
demo_info = record {
  next = 0;
  caps = 0;
  mode = 5;
  addr_format = 0;
  src_addrlen = 0;
  dest_addrlen = 0;
  src_addr = 0;
  dest_addr = 0;
  handle = 0;
  tx_attr = tx_attr;
  rx_attr = rx_attr;
  ep_attr = ep_attr;
  domain_attr = domain_attr;
  fabric_attr = fabric_attr;
  nic = 0;
}
