-- ===== src/Shared/Options.antt =====
-- include/shared.h: the options of a test, their flags and their initial value.
use xlibfabric.Base.{ℕ, ◌^◌, bit_or}

-- enum of option flags; each is `1 << option_bit`, and FT_OPT_OOB_CTRL joins two.
pub data FtOption : Type 0 where
  active iter size rx_cq tx_cq rx_cntr tx_cntr verify_data align bw cq_shared : FtOption
  oob_sync skip_msg_alloc skip_reg_mr oob_addr_exch alloc_mult_mr server_persist : FtOption
  enable_hmem use_device : FtOption

abbrev pub option_bit : FtOption → ℕ
option_bit active = 0
option_bit iter = 1
option_bit size = 2
option_bit rx_cq = 3
option_bit tx_cq = 4
option_bit rx_cntr = 5
option_bit tx_cntr = 6
option_bit verify_data = 7
option_bit align = 8
option_bit bw = 9
option_bit cq_shared = 10
option_bit oob_sync = 11
option_bit skip_msg_alloc = 12
option_bit skip_reg_mr = 13
option_bit oob_addr_exch = 14
option_bit alloc_mult_mr = 15
option_bit server_persist = 16
option_bit enable_hmem = 17
option_bit use_device = 18

abbrev pub option_flag : FtOption → ℕ
option_flag o = 2 ^ option_bit o

abbrev pub ft_opt_oob_ctrl : ℕ
ft_opt_oob_ctrl = bit_or (option_flag oob_sync) (option_flag oob_addr_exch)

-- struct ft_opts; an `int` that the header sets only to small values stands as a number
pub record FtOpts : Type 0 where
  pub iterations : ℕ
  pub warmup_iterations : ℕ
  pub transfer_size : ℕ
  pub window_size : ℕ
  pub av_size : ℕ
  pub verbose : ℕ
  pub tx_cq_size : ℕ
  pub rx_cq_size : ℕ
  pub src_port : ℕ
  pub dst_port : ℕ
  pub src_addr : ℕ
  pub dst_addr : ℕ
  pub av_name : ℕ
  pub sizes_enabled : ℕ
  pub options : ℕ
  pub comp_method : ℕ
  pub machr : ℕ
  pub rma_op : ℕ
  pub oob_port : ℕ
  pub argc : ℕ
  pub num_connections : ℕ
  pub address_format : ℕ
  pub mr_mode : ℕ
  pub force_prefix : ℕ
  pub iface : ℕ
  pub device : ℕ
  pub argv : ℕ

-- FI_MR_LOCAL, and OFI_MR_BASIC_MAP, which joins FI_MR_ALLOCATED, FI_MR_PROV_KEY and
-- FI_MR_VIRT_ADDR.
abbrev pub fi_mr_local : ℕ
fi_mr_local = 2 ^ 2

abbrev pub ofi_mr_basic_map : ℕ
ofi_mr_basic_map = bit_or (bit_or (2 ^ 5) (2 ^ 6)) (2 ^ 4)

-- INIT_OPTS; the members that it does not name are zero.
unfoldable pub init_opts : (argc argv : ℕ) → FtOpts
init_opts argc argv = record {
  iterations = 1000;
  warmup_iterations = 10;
  transfer_size = 1024;
  window_size = 64;
  av_size = 1;
  verbose = 0;
  tx_cq_size = 0;
  rx_cq_size = 0;
  src_port = 0;
  dst_port = 0;
  src_addr = 0;
  dst_addr = 0;
  av_name = 0;
  sizes_enabled = 1;
  options = bit_or (option_flag rx_cq) (option_flag tx_cq);
  comp_method = 0;
  machr = 0;
  rma_op = 2;
  oob_port = 0;
  argc = argc;
  num_connections = 0;
  address_format = 0;
  mr_mode = bit_or fi_mr_local ofi_mr_basic_map;
  force_prefix = 0;
  iface = 0;
  device = 0;
  argv = argv;
}
