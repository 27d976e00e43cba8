-- ===== src/Domain/Layout.antt =====
-- include/fi_domain.h: the domain, address vector and memory region objects, their tables of
-- operations, and the registration structs.
use xlibfabric.Base.{ℕ}
use xlibfabric.Machine.{Struct}

-- struct fi_ops_av; its `size` is at offset 0.
pub data FiOpsAv : Type 0 where
  insert insertsvc insertsym remove lookup straddr av_set : FiOpsAv

abbrev pub fi_ops_av_offset : FiOpsAv → ℕ
fi_ops_av_offset insert = 8
fi_ops_av_offset insertsvc = 16
fi_ops_av_offset insertsym = 24
fi_ops_av_offset remove = 32
fi_ops_av_offset lookup = 40
fi_ops_av_offset straddr = 48
fi_ops_av_offset av_set = 56

instance abbrev pub fi_ops_av_layout : Struct FiOpsAv
fi_ops_av_layout = record { offset = fi_ops_av_offset; bytes = 64 }

-- struct fid_av
pub data FidAv : Type 0 where
  fid ops : FidAv

abbrev pub fid_av_offset : FidAv → ℕ
fid_av_offset fid = 0
fid_av_offset ops = 24

instance abbrev pub fid_av_layout : Struct FidAv
fid_av_layout = record { offset = fid_av_offset; bytes = 32 }

-- struct fid_mr
pub data FidMr : Type 0 where
  fid mem_desc key : FidMr

abbrev pub fid_mr_offset : FidMr → ℕ
fid_mr_offset fid = 0
fid_mr_offset mem_desc = 24
fid_mr_offset key = 32

instance abbrev pub fid_mr_layout : Struct FidMr
fid_mr_layout = record { offset = fid_mr_offset; bytes = 40 }

-- struct fi_mr_attr; `iface` is an `int` with padding, and `device` the union at the end.
pub data FiMrAttr : Type 0 where
  mr_iov iov_count access offset requested_key context auth_key_size auth_key iface device :
      FiMrAttr

abbrev pub fi_mr_attr_offset : FiMrAttr → ℕ
fi_mr_attr_offset mr_iov = 0
fi_mr_attr_offset iov_count = 8
fi_mr_attr_offset access = 16
fi_mr_attr_offset offset = 24
fi_mr_attr_offset requested_key = 32
fi_mr_attr_offset context = 40
fi_mr_attr_offset auth_key_size = 48
fi_mr_attr_offset auth_key = 56
fi_mr_attr_offset iface = 64
fi_mr_attr_offset device = 72

instance abbrev pub fi_mr_attr_layout : Struct FiMrAttr
fi_mr_attr_layout = record { offset = fi_mr_attr_offset; bytes = 80 }

-- struct fi_mr_modify
pub data FiMrModify : Type 0 where
  flags attr : FiMrModify

abbrev pub fi_mr_modify_offset : FiMrModify → ℕ
fi_mr_modify_offset flags = 0
fi_mr_modify_offset attr = 8

instance abbrev pub fi_mr_modify_layout : Struct FiMrModify
fi_mr_modify_layout = record { offset = fi_mr_modify_offset; bytes = 88 }

-- struct fi_ops_domain; its `size` is at offset 0.
pub data FiOpsDomain : Type 0 where
  av_open cq_open endpoint scalable_ep cntr_open poll_open stx_ctx srx_ctx query_atomic
        query_collective :
      FiOpsDomain

abbrev pub fi_ops_domain_offset : FiOpsDomain → ℕ
fi_ops_domain_offset av_open = 8
fi_ops_domain_offset cq_open = 16
fi_ops_domain_offset endpoint = 24
fi_ops_domain_offset scalable_ep = 32
fi_ops_domain_offset cntr_open = 40
fi_ops_domain_offset poll_open = 48
fi_ops_domain_offset stx_ctx = 56
fi_ops_domain_offset srx_ctx = 64
fi_ops_domain_offset query_atomic = 72
fi_ops_domain_offset query_collective = 80

instance abbrev pub fi_ops_domain_layout : Struct FiOpsDomain
fi_ops_domain_layout = record { offset = fi_ops_domain_offset; bytes = 88 }

-- struct fi_ops_mr; its `size` is at offset 0.
pub data FiOpsMr : Type 0 where
  reg regv regattr : FiOpsMr

abbrev pub fi_ops_mr_offset : FiOpsMr → ℕ
fi_ops_mr_offset reg = 8
fi_ops_mr_offset regv = 16
fi_ops_mr_offset regattr = 24

instance abbrev pub fi_ops_mr_layout : Struct FiOpsMr
fi_ops_mr_layout = record { offset = fi_ops_mr_offset; bytes = 32 }

-- struct fid_domain
pub data FidDomain : Type 0 where
  fid ops mr : FidDomain

abbrev pub fid_domain_offset : FidDomain → ℕ
fid_domain_offset fid = 0
fid_domain_offset ops = 24
fid_domain_offset mr = 32

instance abbrev pub fid_domain_layout : Struct FidDomain
fid_domain_layout = record { offset = fid_domain_offset; bytes = 40 }
