-- ===== src/Fabric/Enums.antt =====
-- include/fabric.h: enumerations.
use xlibfabric.Base.{ℕ}

-- enum fi_ep_type
pub data FiEpType : Type 0 where
  unspec msg dgram rdm sock_stream sock_dgram : FiEpType

abbrev pub fi_ep_type_code : FiEpType → ℕ
fi_ep_type_code unspec = 0
fi_ep_type_code msg = 1
fi_ep_type_code dgram = 2
fi_ep_type_code rdm = 3
fi_ep_type_code sock_stream = 4
fi_ep_type_code sock_dgram = 5
