-- ===== src/Examples/BindingRows.antt =====
-- The line of the helper file for `fi_atomic`.
use xlibfabric.Base.{◌≡◌, ◌↔◌, false}
use xlibfabric.Binding.{of_atomic, binding, prototype}
use xlibfabric.Binding.Table.{has_enum, IsComplete, Lists}
use xlibfabric.Binding.Atomic.{AtomicInline}
use xlibfabric.Binding.Complete.{binding-IsComplete}

binding-IsComplete_example :
    Lists (binding (of_atomic AtomicInline.atomic)) (prototype (of_atomic AtomicInline.atomic))
    × (IsComplete (binding (of_atomic AtomicInline.atomic))
        ↔ (has_enum (prototype (of_atomic AtomicInline.atomic)).params ≡ false))
binding-IsComplete_example = binding-IsComplete (of_atomic AtomicInline.atomic)
