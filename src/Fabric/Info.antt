-- ===== src/Fabric/Info.antt =====
-- include/fabric.h: the attributes and `struct fi_info`, as values. A pointer to an attribute that
-- libfabric allocates with the info stands as the attribute itself, any other as its address.
use xlibfabric.Base.{ℕ}

-- struct fi_tx_attr
pub record FiTxAttr : Type 0 where
  pub caps : ℕ
  pub mode : ℕ
  pub op_flags : ℕ
  pub msg_order : ℕ
  pub comp_order : ℕ
  pub inject_size : ℕ
  pub size : ℕ
  pub iov_limit : ℕ
  pub rma_iov_limit : ℕ
  pub tclass : ℕ

-- struct fi_rx_attr
pub record FiRxAttr : Type 0 where
  pub caps : ℕ
  pub mode : ℕ
  pub op_flags : ℕ
  pub msg_order : ℕ
  pub comp_order : ℕ
  pub total_buffered_recv : ℕ
  pub size : ℕ
  pub iov_limit : ℕ

-- struct fi_ep_attr
pub record FiEpAttr : Type 0 where
  pub type : ℕ
  pub protocol : ℕ
  pub protocol_version : ℕ
  pub max_msg_size : ℕ
  pub msg_prefix_size : ℕ
  pub max_order_raw_size : ℕ
  pub max_order_war_size : ℕ
  pub max_order_waw_size : ℕ
  pub mem_tag_format : ℕ
  pub tx_ctx_cnt : ℕ
  pub rx_ctx_cnt : ℕ
  pub auth_key_size : ℕ
  pub auth_key : ℕ

-- struct fi_domain_attr
pub record FiDomainAttr : Type 0 where
  pub domain : ℕ
  pub name : ℕ
  pub threading : ℕ
  pub control_progress : ℕ
  pub data_progress : ℕ
  pub resource_mgmt : ℕ
  pub av_type : ℕ
  pub mr_mode : ℕ
  pub mr_key_size : ℕ
  pub cq_data_size : ℕ
  pub cq_cnt : ℕ
  pub ep_cnt : ℕ
  pub tx_ctx_cnt : ℕ
  pub rx_ctx_cnt : ℕ
  pub max_ep_tx_ctx : ℕ
  pub max_ep_rx_ctx : ℕ
  pub max_ep_stx_ctx : ℕ
  pub max_ep_srx_ctx : ℕ
  pub cntr_cnt : ℕ
  pub mr_iov_limit : ℕ
  pub caps : ℕ
  pub mode : ℕ
  pub auth_key : ℕ
  pub auth_key_size : ℕ
  pub max_err_data : ℕ
  pub mr_cnt : ℕ
  pub tclass : ℕ

-- struct fi_fabric_attr
pub record FiFabricAttr : Type 0 where
  pub fabric : ℕ
  pub name : ℕ
  pub prov_name : ℕ
  pub prov_version : ℕ
  pub api_version : ℕ

-- struct fi_info
pub record FiInfo : Type 0 where
  pub next : ℕ
  pub caps : ℕ
  pub mode : ℕ
  pub addr_format : ℕ
  pub src_addrlen : ℕ
  pub dest_addrlen : ℕ
  pub src_addr : ℕ
  pub dest_addr : ℕ
  pub handle : ℕ
  pub tx_attr : FiTxAttr
  pub rx_attr : FiRxAttr
  pub ep_attr : FiEpAttr
  pub domain_attr : FiDomainAttr
  pub fabric_attr : FiFabricAttr
  pub nic : ℕ
