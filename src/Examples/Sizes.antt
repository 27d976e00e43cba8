-- ===== src/Examples/Sizes.antt =====
-- A run of `ft_use_size` on a table that doubles sizes and has the default flag at even places.
use xlibfabric.Base.{ℕ, ◌/◌, ◌%◌, ◌^◌, ◌-◌, ◌≤◌, ◌≡◌, ◌↔◌, true}
use xlibfabric.Shared.Sizes.{TestSizeParam, ft_enable_all, ft_use_size, ft_use_size-flag}
use xlibfabric.Examples.Info.{demo_info}

abbrev sizes : ℕ → TestSizeParam
sizes i = record { size = 2 ^ i; enable_flags = 1 - i % 2 }

ft_use_size-flag_example :
    ((ft_use_size sizes demo_info 4 ft_enable_all ≡ true) ↔ (16 ≤ 65536))
    × ((ft_use_size sizes demo_info 4 1 ≡ true) ↔ ((16 ≤ 65536) × (1 / 2 ^ 0 % 2 ≡ 1)))
ft_use_size-flag_example = ft_use_size-flag sizes demo_info 4 0
