-- ===== src/Trigger/Messages.antt =====
-- The descriptions of messages in include/fi_endpoint.h, fi_tagged.h, fi_rma.h and fi_atomic.h, and the
-- contexts of include/fabric.h, which the structs of include/fi_trigger.h contain.
use xlibfabric.Base.{[], ◌∷◌}
use xlibfabric.Abi.{Model, int, u64, word, array, Members}

-- struct fi_msg
pub data FiMsg : Type 0 where
  msg_iov desc iov_count addr context data_ : FiMsg

abbrev pub fi_msg_members : Model → Members FiMsg
fi_msg_members m =
    (FiMsg.msg_iov, word m)
    ∷ (FiMsg.desc, word m)
    ∷ (FiMsg.iov_count, word m)
    ∷ (FiMsg.addr, u64)
    ∷ (FiMsg.context, word m)
    ∷ (FiMsg.data_, u64)
    ∷ []

-- struct fi_msg_tagged
pub data FiMsgTagged : Type 0 where
  msg_iov desc iov_count addr tag ignore context data_ : FiMsgTagged

abbrev pub fi_msg_tagged_members : Model → Members FiMsgTagged
fi_msg_tagged_members m =
    (FiMsgTagged.msg_iov, word m)
    ∷ (FiMsgTagged.desc, word m)
    ∷ (FiMsgTagged.iov_count, word m)
    ∷ (FiMsgTagged.addr, u64)
    ∷ (FiMsgTagged.tag, u64)
    ∷ (FiMsgTagged.ignore, u64)
    ∷ (FiMsgTagged.context, word m)
    ∷ (FiMsgTagged.data_, u64)
    ∷ []

-- struct fi_msg_rma
pub data FiMsgRma : Type 0 where
  msg_iov desc iov_count addr rma_iov rma_iov_count context data_ : FiMsgRma

abbrev pub fi_msg_rma_members : Model → Members FiMsgRma
fi_msg_rma_members m =
    (FiMsgRma.msg_iov, word m)
    ∷ (FiMsgRma.desc, word m)
    ∷ (FiMsgRma.iov_count, word m)
    ∷ (FiMsgRma.addr, u64)
    ∷ (FiMsgRma.rma_iov, word m)
    ∷ (FiMsgRma.rma_iov_count, word m)
    ∷ (FiMsgRma.context, word m)
    ∷ (FiMsgRma.data_, u64)
    ∷ []

-- struct fi_msg_atomic
pub data FiMsgAtomic : Type 0 where
  msg_iov desc iov_count addr rma_iov rma_iov_count datatype op context data_ : FiMsgAtomic

abbrev pub fi_msg_atomic_members : Model → Members FiMsgAtomic
fi_msg_atomic_members m =
    (FiMsgAtomic.msg_iov, word m)
    ∷ (FiMsgAtomic.desc, word m)
    ∷ (FiMsgAtomic.iov_count, word m)
    ∷ (FiMsgAtomic.addr, u64)
    ∷ (FiMsgAtomic.rma_iov, word m)
    ∷ (FiMsgAtomic.rma_iov_count, word m)
    ∷ (FiMsgAtomic.datatype, int)
    ∷ (FiMsgAtomic.op, int)
    ∷ (FiMsgAtomic.context, word m)
    ∷ (FiMsgAtomic.data_, u64)
    ∷ []

-- struct fi_msg_fetch
pub data FiMsgFetch : Type 0 where
  msg_iov desc iov_count : FiMsgFetch

abbrev pub fi_msg_fetch_members : Model → Members FiMsgFetch
fi_msg_fetch_members m =
    (FiMsgFetch.msg_iov, word m) ∷ (FiMsgFetch.desc, word m) ∷ (FiMsgFetch.iov_count, word m) ∷ []

-- struct fi_msg_compare
pub data FiMsgCompare : Type 0 where
  msg_iov desc iov_count : FiMsgCompare

abbrev pub fi_msg_compare_members : Model → Members FiMsgCompare
fi_msg_compare_members m =
    (FiMsgCompare.msg_iov, word m)
    ∷ (FiMsgCompare.desc, word m)
    ∷ (FiMsgCompare.iov_count, word m)
    ∷ []

-- struct fi_context
pub data FiContext : Type 0 where
  internal : FiContext

abbrev pub fi_context_members : Model → Members FiContext
fi_context_members m = (FiContext.internal, array 4 (word m)) ∷ []

-- struct fi_context2
pub data FiContext2 : Type 0 where
  internal : FiContext2

abbrev pub fi_context2_members : Model → Members FiContext2
fi_context2_members m = (FiContext2.internal, array 8 (word m)) ∷ []
