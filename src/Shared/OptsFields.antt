-- ===== src/Shared/OptsFields.antt =====
-- include/shared.h: `struct ft_opts` as it lies in memory, and the completion methods.
use xlibfabric.Base.{ℕ}
use xlibfabric.Machine.{Struct}

-- enum ft_comp_method
pub data FtCompMethod : Type 0 where
  spin sread waitset wait_fd yield : FtCompMethod

abbrev pub ft_comp_method_code : FtCompMethod → ℕ
ft_comp_method_code spin = 0
ft_comp_method_code sread = 1
ft_comp_method_code waitset = 2
ft_comp_method_code wait_fd = 3
ft_comp_method_code yield = 4

-- struct ft_opts
pub data FtOptsField : Type 0 where
  iterations warmup_iterations transfer_size window_size av_size verbose tx_cq_size : FtOptsField
  rx_cq_size src_port dst_port src_addr dst_addr av_name sizes_enabled options : FtOptsField
  comp_method machr rma_op oob_port argc num_connections address_format mr_mode : FtOptsField
  force_prefix iface device argv : FtOptsField

abbrev pub ft_opts_field_offset : FtOptsField → ℕ
ft_opts_field_offset iterations = 0
ft_opts_field_offset warmup_iterations = 4
ft_opts_field_offset transfer_size = 8
ft_opts_field_offset window_size = 16
ft_opts_field_offset av_size = 20
ft_opts_field_offset verbose = 24
ft_opts_field_offset tx_cq_size = 28
ft_opts_field_offset rx_cq_size = 32
ft_opts_field_offset src_port = 40
ft_opts_field_offset dst_port = 48
ft_opts_field_offset src_addr = 56
ft_opts_field_offset dst_addr = 64
ft_opts_field_offset av_name = 72
ft_opts_field_offset sizes_enabled = 80
ft_opts_field_offset options = 84
ft_opts_field_offset comp_method = 88
ft_opts_field_offset machr = 92
ft_opts_field_offset rma_op = 96
ft_opts_field_offset oob_port = 104
ft_opts_field_offset argc = 112
ft_opts_field_offset num_connections = 116
ft_opts_field_offset address_format = 120
ft_opts_field_offset mr_mode = 128
ft_opts_field_offset force_prefix = 136
ft_opts_field_offset iface = 140
ft_opts_field_offset device = 144
ft_opts_field_offset argv = 152

instance abbrev pub ft_opts_field_layout : Struct FtOptsField
ft_opts_field_layout = record { offset = ft_opts_field_offset; bytes = 160 }
