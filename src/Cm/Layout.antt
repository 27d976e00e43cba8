-- ===== src/Cm/Layout.antt =====
-- include/fi_cm.h: multicast groups and the table of connection operations.
use xlibfabric.Base.{ℕ}
use xlibfabric.Machine.{Struct}

-- struct fid_mc
pub data FidMc : Type 0 where
  fid fi_addr : FidMc

abbrev pub fid_mc_offset : FidMc → ℕ
fid_mc_offset fid = 0
fid_mc_offset fi_addr = 24

instance abbrev pub fid_mc_layout : Struct FidMc
fid_mc_layout = record { offset = fid_mc_offset; bytes = 32 }

-- struct fi_ops_cm; its `size` is at offset 0.
pub data FiOpsCm : Type 0 where
  setname getname getpeer connect listen accept reject shutdown join : FiOpsCm

abbrev pub fi_ops_cm_offset : FiOpsCm → ℕ
fi_ops_cm_offset setname = 8
fi_ops_cm_offset getname = 16
fi_ops_cm_offset getpeer = 24
fi_ops_cm_offset connect = 32
fi_ops_cm_offset listen = 40
fi_ops_cm_offset accept = 48
fi_ops_cm_offset reject = 56
fi_ops_cm_offset shutdown = 64
fi_ops_cm_offset join = 72

instance abbrev pub fi_ops_cm_layout : Struct FiOpsCm
fi_ops_cm_layout = record { offset = fi_ops_cm_offset; bytes = 80 }
