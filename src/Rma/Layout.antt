-- ===== src/Rma/Layout.antt =====
-- include/fi_rma.h: the table of operations for remote memory access.
use xlibfabric.Base.{ℕ}
use xlibfabric.Machine.{Struct}

-- struct fi_ops_rma; its `size` is at offset 0.
pub data FiOpsRma : Type 0 where
  read readv readmsg write writev writemsg inject writedata injectdata : FiOpsRma

abbrev pub fi_ops_rma_offset : FiOpsRma → ℕ
fi_ops_rma_offset read = 8
fi_ops_rma_offset readv = 16
fi_ops_rma_offset readmsg = 24
fi_ops_rma_offset write = 32
fi_ops_rma_offset writev = 40
fi_ops_rma_offset writemsg = 48
fi_ops_rma_offset inject = 56
fi_ops_rma_offset writedata = 64
fi_ops_rma_offset injectdata = 72

instance abbrev pub fi_ops_rma_layout : Struct FiOpsRma
fi_ops_rma_layout = record { offset = fi_ops_rma_offset; bytes = 80 }
