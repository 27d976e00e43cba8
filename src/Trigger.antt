-- ===== src/Trigger.antt =====
-- include/fi_trigger.h: triggered operations and deferred work, as they lie in memory.
pub mod Messages
pub mod Sizes
use xlibfabric.Base.{ℕ, [], ◌∷◌}
use xlibfabric.Abi.{Model, byte, int, u64, word, array, struct_of, union_of, Members, kinds}
use Messages.{
  fi_msg_members, fi_msg_tagged_members, fi_msg_rma_members, fi_msg_atomic_members,
  fi_msg_fetch_members, fi_msg_compare_members, fi_context_members, fi_context2_members,
}

-- enum fi_trigger_event
pub data FiTriggerEvent : Type 0 where
  threshold : FiTriggerEvent

abbrev pub fi_trigger_event_code : FiTriggerEvent → ℕ
fi_trigger_event_code FiTriggerEvent.threshold = 0

-- enum fi_op_type
pub data FiOpType : Type 0 where
  recv send trecv tsend read write atomic fetch_atomic compare_atomic cntr_set : FiOpType
  cntr_add : FiOpType

abbrev pub fi_op_type_code : FiOpType → ℕ
fi_op_type_code FiOpType.recv = 0
fi_op_type_code FiOpType.send = 1
fi_op_type_code FiOpType.trecv = 2
fi_op_type_code FiOpType.tsend = 3
fi_op_type_code FiOpType.read = 4
fi_op_type_code FiOpType.write = 5
fi_op_type_code FiOpType.atomic = 6
fi_op_type_code FiOpType.fetch_atomic = 7
fi_op_type_code FiOpType.compare_atomic = 8
fi_op_type_code FiOpType.cntr_set = 9
fi_op_type_code FiOpType.cntr_add = 10

-- struct fi_trigger_threshold
pub data FiTriggerThreshold : Type 0 where
  cntr threshold : FiTriggerThreshold

abbrev pub fi_trigger_threshold_members : Model → Members FiTriggerThreshold
fi_trigger_threshold_members m =
    (FiTriggerThreshold.cntr, word m) ∷ (FiTriggerThreshold.threshold, word m) ∷ []

-- struct fi_op_msg
pub data FiOpMsg : Type 0 where
  ep msg flags : FiOpMsg

abbrev pub fi_op_msg_members : Model → Members FiOpMsg
fi_op_msg_members m =
    (FiOpMsg.ep, word m)
    ∷ (FiOpMsg.msg, struct_of (kinds (fi_msg_members m)))
    ∷ (FiOpMsg.flags, u64)
    ∷ []

-- struct fi_op_tagged
pub data FiOpTagged : Type 0 where
  ep msg flags : FiOpTagged

abbrev pub fi_op_tagged_members : Model → Members FiOpTagged
fi_op_tagged_members m =
    (FiOpTagged.ep, word m)
    ∷ (FiOpTagged.msg, struct_of (kinds (fi_msg_tagged_members m)))
    ∷ (FiOpTagged.flags, u64)
    ∷ []

-- struct fi_op_rma
pub data FiOpRma : Type 0 where
  ep msg flags : FiOpRma

abbrev pub fi_op_rma_members : Model → Members FiOpRma
fi_op_rma_members m =
    (FiOpRma.ep, word m)
    ∷ (FiOpRma.msg, struct_of (kinds (fi_msg_rma_members m)))
    ∷ (FiOpRma.flags, u64)
    ∷ []

-- struct fi_op_atomic
pub data FiOpAtomic : Type 0 where
  ep msg flags : FiOpAtomic

abbrev pub fi_op_atomic_members : Model → Members FiOpAtomic
fi_op_atomic_members m =
    (FiOpAtomic.ep, word m)
    ∷ (FiOpAtomic.msg, struct_of (kinds (fi_msg_atomic_members m)))
    ∷ (FiOpAtomic.flags, u64)
    ∷ []

-- struct fi_op_fetch_atomic
pub data FiOpFetchAtomic : Type 0 where
  ep msg fetch flags : FiOpFetchAtomic

abbrev pub fi_op_fetch_atomic_members : Model → Members FiOpFetchAtomic
fi_op_fetch_atomic_members m =
    (FiOpFetchAtomic.ep, word m)
    ∷ (FiOpFetchAtomic.msg, struct_of (kinds (fi_msg_atomic_members m)))
    ∷ (FiOpFetchAtomic.fetch, struct_of (kinds (fi_msg_fetch_members m)))
    ∷ (FiOpFetchAtomic.flags, u64)
    ∷ []

-- struct fi_op_compare_atomic
pub data FiOpCompareAtomic : Type 0 where
  ep msg fetch compare flags : FiOpCompareAtomic

abbrev pub fi_op_compare_atomic_members : Model → Members FiOpCompareAtomic
fi_op_compare_atomic_members m =
    (FiOpCompareAtomic.ep, word m)
    ∷ (FiOpCompareAtomic.msg, struct_of (kinds (fi_msg_atomic_members m)))
    ∷ (FiOpCompareAtomic.fetch, struct_of (kinds (fi_msg_fetch_members m)))
    ∷ (FiOpCompareAtomic.compare, struct_of (kinds (fi_msg_compare_members m)))
    ∷ (FiOpCompareAtomic.flags, u64)
    ∷ []

-- struct fi_op_cntr
pub data FiOpCntr : Type 0 where
  cntr value : FiOpCntr

abbrev pub fi_op_cntr_members : Model → Members FiOpCntr
fi_op_cntr_members m = (FiOpCntr.cntr, word m) ∷ (FiOpCntr.value, u64) ∷ []

-- struct fi_triggered_context
pub data FiTriggeredContext : Type 0 where
  event_type trigger : FiTriggeredContext

abbrev pub fi_triggered_context_members : Model → Members FiTriggeredContext
fi_triggered_context_members m =
    (FiTriggeredContext.event_type, int)
    ∷ (
      FiTriggeredContext.trigger,
      union_of (struct_of (kinds (fi_trigger_threshold_members m)) ∷ array 3 (word m) ∷ []),
    )
    ∷ []

-- struct fi_triggered_context2
pub data FiTriggeredContext2 : Type 0 where
  event_type trigger : FiTriggeredContext2

abbrev pub fi_triggered_context2_members : Model → Members FiTriggeredContext2
fi_triggered_context2_members m =
    (FiTriggeredContext2.event_type, int)
    ∷ (
      FiTriggeredContext2.trigger,
      union_of (struct_of (kinds (fi_trigger_threshold_members m)) ∷ array 7 (word m) ∷ []),
    )
    ∷ []

-- struct fi_deferred_work
pub data FiDeferredWork : Type 0 where
  context threshold triggering_cntr completion_cntr op_type op : FiDeferredWork

abbrev pub fi_deferred_work_members : Model → Members FiDeferredWork
fi_deferred_work_members m =
    (FiDeferredWork.context, struct_of (kinds (fi_context2_members m)))
    ∷ (FiDeferredWork.threshold, u64)
    ∷ (FiDeferredWork.triggering_cntr, word m)
    ∷ (FiDeferredWork.completion_cntr, word m)
    ∷ (FiDeferredWork.op_type, int)
    ∷ (
      FiDeferredWork.op,
      union_of (word m ∷ word m ∷ word m ∷ word m ∷ word m ∷ word m ∷ word m ∷ []),
    )
    ∷ []
