-- ===== src/Endpoint/Layout.antt =====
-- include/fi_endpoint.h: endpoints and their tables of operations.
use xlibfabric.Base.{ℕ}
use xlibfabric.Machine.{Struct}

-- struct fi_ops_ep; its `size` is at offset 0.
pub data FiOpsEp : Type 0 where
  cancel getopt setopt tx_ctx rx_ctx rx_size_left tx_size_left : FiOpsEp

abbrev pub fi_ops_ep_offset : FiOpsEp → ℕ
fi_ops_ep_offset cancel = 8
fi_ops_ep_offset getopt = 16
fi_ops_ep_offset setopt = 24
fi_ops_ep_offset tx_ctx = 32
fi_ops_ep_offset rx_ctx = 40
fi_ops_ep_offset rx_size_left = 48
fi_ops_ep_offset tx_size_left = 56

instance abbrev pub fi_ops_ep_layout : Struct FiOpsEp
fi_ops_ep_layout = record { offset = fi_ops_ep_offset; bytes = 64 }

-- struct fi_ops_msg; its `size` is at offset 0.
pub data FiOpsMsg : Type 0 where
  recv recvv recvmsg send sendv sendmsg inject senddata injectdata : FiOpsMsg

abbrev pub fi_ops_msg_offset : FiOpsMsg → ℕ
fi_ops_msg_offset recv = 8
fi_ops_msg_offset recvv = 16
fi_ops_msg_offset recvmsg = 24
fi_ops_msg_offset send = 32
fi_ops_msg_offset sendv = 40
fi_ops_msg_offset sendmsg = 48
fi_ops_msg_offset inject = 56
fi_ops_msg_offset senddata = 64
fi_ops_msg_offset injectdata = 72

instance abbrev pub fi_ops_msg_layout : Struct FiOpsMsg
fi_ops_msg_layout = record { offset = fi_ops_msg_offset; bytes = 80 }

-- struct fid_ep
pub data FidEp : Type 0 where
  fid ops cm msg rma tagged atomic collective : FidEp

abbrev pub fid_ep_offset : FidEp → ℕ
fid_ep_offset fid = 0
fid_ep_offset ops = 24
fid_ep_offset cm = 32
fid_ep_offset msg = 40
fid_ep_offset rma = 48
fid_ep_offset tagged = 56
fid_ep_offset atomic = 64
fid_ep_offset collective = 72

instance abbrev pub fid_ep_layout : Struct FidEp
fid_ep_layout = record { offset = fid_ep_offset; bytes = 80 }

-- struct fid_pep
pub data FidPep : Type 0 where
  fid ops cm : FidPep

abbrev pub fid_pep_offset : FidPep → ℕ
fid_pep_offset fid = 0
fid_pep_offset ops = 24
fid_pep_offset cm = 32

instance abbrev pub fid_pep_layout : Struct FidPep
fid_pep_layout = record { offset = fid_pep_offset; bytes = 40 }

-- struct fid_stx
pub data FidStx : Type 0 where
  fid ops : FidStx

abbrev pub fid_stx_offset : FidStx → ℕ
fid_stx_offset fid = 0
fid_stx_offset ops = 24

instance abbrev pub fid_stx_layout : Struct FidStx
fid_stx_layout = record { offset = fid_stx_offset; bytes = 32 }
