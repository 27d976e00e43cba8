-- ===== src/Tagged/Layout.antt =====
-- include/fi_tagged.h: the table of operations for tagged messages.
use xlibfabric.Base.{ℕ}
use xlibfabric.Machine.{Struct}

-- struct fi_ops_tagged; its `size` is at offset 0.
pub data FiOpsTagged : Type 0 where
  recv recvv recvmsg send sendv sendmsg inject senddata injectdata : FiOpsTagged

abbrev pub fi_ops_tagged_offset : FiOpsTagged → ℕ
fi_ops_tagged_offset recv = 8
fi_ops_tagged_offset recvv = 16
fi_ops_tagged_offset recvmsg = 24
fi_ops_tagged_offset send = 32
fi_ops_tagged_offset sendv = 40
fi_ops_tagged_offset sendmsg = 48
fi_ops_tagged_offset inject = 56
fi_ops_tagged_offset senddata = 64
fi_ops_tagged_offset injectdata = 72

instance abbrev pub fi_ops_tagged_layout : Struct FiOpsTagged
fi_ops_tagged_layout = record { offset = fi_ops_tagged_offset; bytes = 80 }
