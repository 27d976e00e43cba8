-- ===== src/Domain/AvAttr.antt =====
-- include/fi_domain.h: the attributes of an address vector as they lie in memory.
use xlibfabric.Base.{ℕ}
use xlibfabric.Machine.{Struct}

-- struct fi_av_attr
pub data FiAvAttr : Type 0 where
  type rx_ctx_bits count ep_per_node name map_addr flags : FiAvAttr

abbrev pub fi_av_attr_offset : FiAvAttr → ℕ
fi_av_attr_offset type = 0
fi_av_attr_offset rx_ctx_bits = 4
fi_av_attr_offset count = 8
fi_av_attr_offset ep_per_node = 16
fi_av_attr_offset name = 24
fi_av_attr_offset map_addr = 32
fi_av_attr_offset flags = 40

instance abbrev pub fi_av_attr_layout : Struct FiAvAttr
fi_av_attr_layout = record { offset = fi_av_attr_offset; bytes = 48 }
