-- ===== src/Eq/Layout.antt =====
-- include/fi_eq.h: wait sets, poll sets, event queues, completion queues and counters.
use xlibfabric.Base.{ℕ}
use xlibfabric.Machine.{Struct}

-- struct fi_ops_wait; its `size` is at offset 0.
pub data FiOpsWait : Type 0 where
  wait : FiOpsWait

abbrev pub fi_ops_wait_offset : FiOpsWait → ℕ
fi_ops_wait_offset wait = 8

instance abbrev pub fi_ops_wait_layout : Struct FiOpsWait
fi_ops_wait_layout = record { offset = fi_ops_wait_offset; bytes = 16 }

-- struct fid_wait
pub data FidWait : Type 0 where
  fid ops : FidWait

abbrev pub fid_wait_offset : FidWait → ℕ
fid_wait_offset fid = 0
fid_wait_offset ops = 24

instance abbrev pub fid_wait_layout : Struct FidWait
fid_wait_layout = record { offset = fid_wait_offset; bytes = 32 }

-- struct fi_ops_poll; its `size` is at offset 0.
pub data FiOpsPoll : Type 0 where
  poll poll_add poll_del : FiOpsPoll

abbrev pub fi_ops_poll_offset : FiOpsPoll → ℕ
fi_ops_poll_offset poll = 8
fi_ops_poll_offset poll_add = 16
fi_ops_poll_offset poll_del = 24

instance abbrev pub fi_ops_poll_layout : Struct FiOpsPoll
fi_ops_poll_layout = record { offset = fi_ops_poll_offset; bytes = 32 }

-- struct fid_poll
pub data FidPoll : Type 0 where
  fid ops : FidPoll

abbrev pub fid_poll_offset : FidPoll → ℕ
fid_poll_offset fid = 0
fid_poll_offset ops = 24

instance abbrev pub fid_poll_layout : Struct FidPoll
fid_poll_layout = record { offset = fid_poll_offset; bytes = 32 }

-- struct fi_ops_eq; its `size` is at offset 0.
pub data FiOpsEq : Type 0 where
  read readerr write sread strerror : FiOpsEq

abbrev pub fi_ops_eq_offset : FiOpsEq → ℕ
fi_ops_eq_offset read = 8
fi_ops_eq_offset readerr = 16
fi_ops_eq_offset write = 24
fi_ops_eq_offset sread = 32
fi_ops_eq_offset strerror = 40

instance abbrev pub fi_ops_eq_layout : Struct FiOpsEq
fi_ops_eq_layout = record { offset = fi_ops_eq_offset; bytes = 48 }

-- struct fid_eq
pub data FidEq : Type 0 where
  fid ops : FidEq

abbrev pub fid_eq_offset : FidEq → ℕ
fid_eq_offset fid = 0
fid_eq_offset ops = 24

instance abbrev pub fid_eq_layout : Struct FidEq
fid_eq_layout = record { offset = fid_eq_offset; bytes = 32 }

-- struct fi_ops_cq; its `size` is at offset 0.
pub data FiOpsCq : Type 0 where
  read readfrom readerr sread sreadfrom signal strerror : FiOpsCq

abbrev pub fi_ops_cq_offset : FiOpsCq → ℕ
fi_ops_cq_offset read = 8
fi_ops_cq_offset readfrom = 16
fi_ops_cq_offset readerr = 24
fi_ops_cq_offset sread = 32
fi_ops_cq_offset sreadfrom = 40
fi_ops_cq_offset signal = 48
fi_ops_cq_offset strerror = 56

instance abbrev pub fi_ops_cq_layout : Struct FiOpsCq
fi_ops_cq_layout = record { offset = fi_ops_cq_offset; bytes = 64 }

-- struct fid_cq
pub data FidCq : Type 0 where
  fid ops : FidCq

abbrev pub fid_cq_offset : FidCq → ℕ
fid_cq_offset fid = 0
fid_cq_offset ops = 24

instance abbrev pub fid_cq_layout : Struct FidCq
fid_cq_layout = record { offset = fid_cq_offset; bytes = 32 }

-- struct fi_ops_cntr; its `size` is at offset 0.
pub data FiOpsCntr : Type 0 where
  read readerr add set wait adderr seterr : FiOpsCntr

abbrev pub fi_ops_cntr_offset : FiOpsCntr → ℕ
fi_ops_cntr_offset read = 8
fi_ops_cntr_offset readerr = 16
fi_ops_cntr_offset add = 24
fi_ops_cntr_offset set = 32
fi_ops_cntr_offset wait = 40
fi_ops_cntr_offset adderr = 48
fi_ops_cntr_offset seterr = 56

instance abbrev pub fi_ops_cntr_layout : Struct FiOpsCntr
fi_ops_cntr_layout = record { offset = fi_ops_cntr_offset; bytes = 64 }

-- struct fid_cntr
pub data FidCntr : Type 0 where
  fid ops : FidCntr

abbrev pub fid_cntr_offset : FidCntr → ℕ
fid_cntr_offset fid = 0
fid_cntr_offset ops = 24

instance abbrev pub fid_cntr_layout : Struct FidCntr
fid_cntr_layout = record { offset = fid_cntr_offset; bytes = 32 }
