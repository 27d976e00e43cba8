-- ===== src/Fabric/Flags.antt =====
-- include/fabric.h: flags.
use xlibfabric.Base.{ℕ, ◌^◌}

abbrev pub fi_collective : ℕ
fi_collective = 2 ^ 6
