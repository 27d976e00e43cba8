-- ===== src/Trigger/Sizes.antt =====
-- The sizes that the comments of include/fi_trigger.h ask for.
use xlibfabric.Base.{◌≡◌, refl}
use xlibfabric.Abi.{Model, ilp32, lp64, struct_of, kinds, end_of, align_up}
use xlibfabric.Trigger.Messages.{fi_context_members, fi_context2_members}
use xlibfabric.Trigger.{fi_triggered_context_members, fi_triggered_context2_members}

-- In both data models the contexts of triggered operations have the sizes and the alignments of the
-- contexts that they stand in for.
pub triggered_context-size :
    (m : Model)
    → (struct_of (kinds (fi_triggered_context_members m))
        ≡ struct_of (kinds (fi_context_members m)))
      × (struct_of (kinds (fi_triggered_context2_members m))
          ≡ struct_of (kinds (fi_context2_members m)))
unfolding end_of align_up
triggered_context-size ilp32 = (refl, refl)
triggered_context-size lp64 = (refl, refl)
