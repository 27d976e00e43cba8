-- ===== src/Eq/Entries.antt =====
-- include/fi_eq.h: the entries of completion and event queues, and the attributes of wait and poll sets.
pub mod Formats
use xlibfabric.Base.{ℕ, [], ◌∷◌}
use xlibfabric.Abi.{Model, byte, int, u64, word, array, struct_of, union_of, Members, kinds}

-- The fields of the entries of completion queues.
pub data CqField : Type 0 where
  op_context flags len buf data_ tag olen err prov_errno err_data err_data_size : CqField

-- struct fi_cq_entry
abbrev pub fi_cq_entry_members : Model → Members CqField
fi_cq_entry_members m = (CqField.op_context, word m) ∷ []

-- struct fi_cq_msg_entry
abbrev pub fi_cq_msg_entry_members : Model → Members CqField
fi_cq_msg_entry_members m =
    (CqField.op_context, word m) ∷ (CqField.flags, u64) ∷ (CqField.len, word m) ∷ []

-- struct fi_cq_data_entry
abbrev pub fi_cq_data_entry_members : Model → Members CqField
fi_cq_data_entry_members m =
    (CqField.op_context, word m)
    ∷ (CqField.flags, u64)
    ∷ (CqField.len, word m)
    ∷ (CqField.buf, word m)
    ∷ (CqField.data_, u64)
    ∷ []

-- struct fi_cq_tagged_entry
abbrev pub fi_cq_tagged_entry_members : Model → Members CqField
fi_cq_tagged_entry_members m =
    (CqField.op_context, word m)
    ∷ (CqField.flags, u64)
    ∷ (CqField.len, word m)
    ∷ (CqField.buf, word m)
    ∷ (CqField.data_, u64)
    ∷ (CqField.tag, u64)
    ∷ []

-- struct fi_cq_err_entry
abbrev pub fi_cq_err_entry_members : Model → Members CqField
fi_cq_err_entry_members m =
    (CqField.op_context, word m)
    ∷ (CqField.flags, u64)
    ∷ (CqField.len, word m)
    ∷ (CqField.buf, word m)
    ∷ (CqField.data_, u64)
    ∷ (CqField.tag, u64)
    ∷ (CqField.olen, word m)
    ∷ (CqField.err, int)
    ∷ (CqField.prov_errno, int)
    ∷ (CqField.err_data, word m)
    ∷ (CqField.err_data_size, word m)
    ∷ []

-- struct fi_wait_attr
pub data FiWaitAttr : Type 0 where
  wait_obj flags : FiWaitAttr

abbrev pub fi_wait_attr_members : Model → Members FiWaitAttr
fi_wait_attr_members m = (FiWaitAttr.wait_obj, int) ∷ (FiWaitAttr.flags, u64) ∷ []

-- struct fi_wait_pollfd
pub data FiWaitPollfd : Type 0 where
  change_index nfds fd : FiWaitPollfd

abbrev pub fi_wait_pollfd_members : Model → Members FiWaitPollfd
fi_wait_pollfd_members m =
    (FiWaitPollfd.change_index, u64) ∷ (FiWaitPollfd.nfds, word m) ∷ (FiWaitPollfd.fd, word m) ∷ []

-- struct fi_mutex_cond
pub data FiMutexCond : Type 0 where
  mutex cond : FiMutexCond

abbrev pub fi_mutex_cond_members : Model → Members FiMutexCond
fi_mutex_cond_members m = (FiMutexCond.mutex, word m) ∷ (FiMutexCond.cond, word m) ∷ []

-- struct fi_poll_attr
pub data FiPollAttr : Type 0 where
  flags : FiPollAttr

abbrev pub fi_poll_attr_members : Model → Members FiPollAttr
fi_poll_attr_members m = (FiPollAttr.flags, u64) ∷ []

-- struct fi_eq_entry
pub data FiEqEntry : Type 0 where
  fid context data_ : FiEqEntry

abbrev pub fi_eq_entry_members : Model → Members FiEqEntry
fi_eq_entry_members m =
    (FiEqEntry.fid, word m) ∷ (FiEqEntry.context, word m) ∷ (FiEqEntry.data_, u64) ∷ []

-- struct fi_eq_err_entry
pub data FiEqErrEntry : Type 0 where
  fid context data_ err prov_errno err_data err_data_size : FiEqErrEntry

abbrev pub fi_eq_err_entry_members : Model → Members FiEqErrEntry
fi_eq_err_entry_members m =
    (FiEqErrEntry.fid, word m)
    ∷ (FiEqErrEntry.context, word m)
    ∷ (FiEqErrEntry.data_, u64)
    ∷ (FiEqErrEntry.err, int)
    ∷ (FiEqErrEntry.prov_errno, int)
    ∷ (FiEqErrEntry.err_data, word m)
    ∷ (FiEqErrEntry.err_data_size, word m)
    ∷ []
