-- ===== src/Eq/Attr.antt =====
-- include/fi_eq.h: the attributes of queues and counters as they lie in memory, and their
-- enumerations.
use xlibfabric.Base.{ℕ}
use xlibfabric.Machine.{Struct}

-- enum fi_wait_obj
pub data FiWaitObj : Type 0 where
  none unspec set fd mutex_cond yield pollfd : FiWaitObj

abbrev pub fi_wait_obj_code : FiWaitObj → ℕ
fi_wait_obj_code none = 0
fi_wait_obj_code unspec = 1
fi_wait_obj_code set = 2
fi_wait_obj_code fd = 3
fi_wait_obj_code mutex_cond = 4
fi_wait_obj_code yield = 5
fi_wait_obj_code pollfd = 6

-- enum fi_cq_format
pub data FiCqFormat : Type 0 where
  unspec context msg cq_data tagged : FiCqFormat

abbrev pub fi_cq_format_code : FiCqFormat → ℕ
fi_cq_format_code unspec = 0
fi_cq_format_code context = 1
fi_cq_format_code msg = 2
fi_cq_format_code cq_data = 3
fi_cq_format_code tagged = 4

-- enum fi_cq_wait_cond
pub data FiCqWaitCond : Type 0 where
  none threshold : FiCqWaitCond

abbrev pub fi_cq_wait_cond_code : FiCqWaitCond → ℕ
fi_cq_wait_cond_code none = 0
fi_cq_wait_cond_code threshold = 1

-- struct fi_eq_attr
pub data FiEqAttr : Type 0 where
  size flags wait_obj signaling_vector wait_set : FiEqAttr

abbrev pub fi_eq_attr_offset : FiEqAttr → ℕ
fi_eq_attr_offset size = 0
fi_eq_attr_offset flags = 8
fi_eq_attr_offset wait_obj = 16
fi_eq_attr_offset signaling_vector = 20
fi_eq_attr_offset wait_set = 24

instance abbrev pub fi_eq_attr_layout : Struct FiEqAttr
fi_eq_attr_layout = record { offset = fi_eq_attr_offset; bytes = 32 }

-- struct fi_cq_entry
pub data FiCqEntry : Type 0 where
  op_context : FiCqEntry

abbrev pub fi_cq_entry_offset : FiCqEntry → ℕ
fi_cq_entry_offset op_context = 0

instance abbrev pub fi_cq_entry_layout : Struct FiCqEntry
fi_cq_entry_layout = record { offset = fi_cq_entry_offset; bytes = 8 }

-- struct fi_cq_attr
pub data FiCqAttr : Type 0 where
  size flags format wait_obj signaling_vector wait_cond wait_set : FiCqAttr

abbrev pub fi_cq_attr_offset : FiCqAttr → ℕ
fi_cq_attr_offset size = 0
fi_cq_attr_offset flags = 8
fi_cq_attr_offset format = 16
fi_cq_attr_offset wait_obj = 20
fi_cq_attr_offset signaling_vector = 24
fi_cq_attr_offset wait_cond = 28
fi_cq_attr_offset wait_set = 32

instance abbrev pub fi_cq_attr_layout : Struct FiCqAttr
fi_cq_attr_layout = record { offset = fi_cq_attr_offset; bytes = 40 }

-- struct fi_cntr_attr
pub data FiCntrAttr : Type 0 where
  events wait_obj wait_set flags : FiCntrAttr

abbrev pub fi_cntr_attr_offset : FiCntrAttr → ℕ
fi_cntr_attr_offset events = 0
fi_cntr_attr_offset wait_obj = 4
fi_cntr_attr_offset wait_set = 8
fi_cntr_attr_offset flags = 16

instance abbrev pub fi_cntr_attr_layout : Struct FiCntrAttr
fi_cntr_attr_layout = record { offset = fi_cntr_attr_offset; bytes = 24 }
