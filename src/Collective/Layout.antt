-- ===== src/Collective/Layout.antt =====
-- include/fi_collective.h: address vector sets and collective operations.
use xlibfabric.Base.{ℕ}
use xlibfabric.Machine.{Struct}

-- struct fi_ops_av_set; its `size` is at offset 0.
pub data FiOpsAvSet : Type 0 where
  set_union intersect diff insert remove addr : FiOpsAvSet

abbrev pub fi_ops_av_set_offset : FiOpsAvSet → ℕ
fi_ops_av_set_offset set_union = 8
fi_ops_av_set_offset intersect = 16
fi_ops_av_set_offset diff = 24
fi_ops_av_set_offset insert = 32
fi_ops_av_set_offset remove = 40
fi_ops_av_set_offset addr = 48

instance abbrev pub fi_ops_av_set_layout : Struct FiOpsAvSet
fi_ops_av_set_layout = record { offset = fi_ops_av_set_offset; bytes = 56 }

-- struct fid_av_set
pub data FidAvSet : Type 0 where
  fid ops : FidAvSet

abbrev pub fid_av_set_offset : FidAvSet → ℕ
fid_av_set_offset fid = 0
fid_av_set_offset ops = 24

instance abbrev pub fid_av_set_layout : Struct FidAvSet
fid_av_set_layout = record { offset = fid_av_set_offset; bytes = 32 }

-- struct fi_collective_addr
pub data FiCollectiveAddr : Type 0 where
  set coll_addr : FiCollectiveAddr

abbrev pub fi_collective_addr_offset : FiCollectiveAddr → ℕ
fi_collective_addr_offset set = 0
fi_collective_addr_offset coll_addr = 8

instance abbrev pub fi_collective_addr_layout : Struct FiCollectiveAddr
fi_collective_addr_layout = record { offset = fi_collective_addr_offset; bytes = 16 }

-- struct fi_ops_collective; its `size` is at offset 0.
pub data FiOpsCollective : Type 0 where
  barrier broadcast alltoall allreduce allgather reduce_scatter reduce scatter gather msg :
      FiOpsCollective

abbrev pub fi_ops_collective_offset : FiOpsCollective → ℕ
fi_ops_collective_offset barrier = 8
fi_ops_collective_offset broadcast = 16
fi_ops_collective_offset alltoall = 24
fi_ops_collective_offset allreduce = 32
fi_ops_collective_offset allgather = 40
fi_ops_collective_offset reduce_scatter = 48
fi_ops_collective_offset reduce = 56
fi_ops_collective_offset scatter = 64
fi_ops_collective_offset gather = 72
fi_ops_collective_offset msg = 80

instance abbrev pub fi_ops_collective_layout : Struct FiOpsCollective
fi_ops_collective_layout = record { offset = fi_ops_collective_offset; bytes = 88 }
