-- ===== src/Atomic/Layout.antt =====
-- include/fi_atomic.h: the table of operations for remote atomic operations.
use xlibfabric.Base.{ℕ}
use xlibfabric.Machine.{Struct}

-- struct fi_ops_atomic; its `size` is at offset 0.
pub data FiOpsAtomic : Type 0 where
  write writev writemsg inject readwrite readwritev readwritemsg compwrite compwritev compwritemsg
        writevalid readwritevalid compwritevalid :
      FiOpsAtomic

abbrev pub fi_ops_atomic_offset : FiOpsAtomic → ℕ
fi_ops_atomic_offset write = 8
fi_ops_atomic_offset writev = 16
fi_ops_atomic_offset writemsg = 24
fi_ops_atomic_offset inject = 32
fi_ops_atomic_offset readwrite = 40
fi_ops_atomic_offset readwritev = 48
fi_ops_atomic_offset readwritemsg = 56
fi_ops_atomic_offset compwrite = 64
fi_ops_atomic_offset compwritev = 72
fi_ops_atomic_offset compwritemsg = 80
fi_ops_atomic_offset writevalid = 88
fi_ops_atomic_offset readwritevalid = 96
fi_ops_atomic_offset compwritevalid = 104

instance abbrev pub fi_ops_atomic_layout : Struct FiOpsAtomic
fi_ops_atomic_layout = record { offset = fi_ops_atomic_offset; bytes = 112 }
