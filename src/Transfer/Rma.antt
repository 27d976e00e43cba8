-- ===== src/Transfer/Rma.antt =====
-- The calls of include/fi_rma.h on remote memory access, as data.
use xlibfabric.Base.{ℕ, ◌≡◌, Option, List, [], ◌∷◌, ℤ}
use xlibfabric.Machine.{Host, State, Method, M}
use xlibfabric.Machine.Dispatch.{Represents, perform, vcall-perform}
use xlibfabric.Endpoint.Layout.{FidEp, fid_ep_layout}
use xlibfabric.Rma.Layout.{FiOpsRma, fi_ops_rma_layout}
use xlibfabric.Rma.{
  fi_read, fi_readv, fi_readmsg, fi_write, fi_writev, fi_writemsg, fi_inject_write, fi_writedata,
  fi_inject_writedata,
}

-- A constructor for each call, with its arguments but for the endpoint.
pub data RmaCall : Type 0 where
  read : (buf len desc src_addr addr key context : ℕ) → RmaCall
  readv : (iov desc count src_addr addr key context : ℕ) → RmaCall
  readmsg : (msg flags : ℕ) → RmaCall
  write : (buf len desc dest_addr addr key context : ℕ) → RmaCall
  writev : (iov desc count dest_addr addr key context : ℕ) → RmaCall
  writemsg : (msg flags : ℕ) → RmaCall
  inject_write : (buf len dest_addr addr key : ℕ) → RmaCall
  writedata : (buf len desc cq_data dest_addr addr key context : ℕ) → RmaCall
  inject_writedata : (buf len cq_data dest_addr addr key : ℕ) → RmaCall

-- The C function of the call.
unfoldable pub issue_rma : Host → (ep : ℕ) → RmaCall → M ℤ
issue_rma host ep (RmaCall.read buf len desc src_addr addr key context) =
    fi_read host ep buf len desc src_addr addr key context
issue_rma host ep (RmaCall.readv iov desc count src_addr addr key context) =
    fi_readv host ep iov desc count src_addr addr key context
issue_rma host ep (RmaCall.readmsg msg flags) = fi_readmsg host ep msg flags
issue_rma host ep (RmaCall.write buf len desc dest_addr addr key context) =
    fi_write host ep buf len desc dest_addr addr key context
issue_rma host ep (RmaCall.writev iov desc count dest_addr addr key context) =
    fi_writev host ep iov desc count dest_addr addr key context
issue_rma host ep (RmaCall.writemsg msg flags) = fi_writemsg host ep msg flags
issue_rma host ep (RmaCall.inject_write buf len dest_addr addr key) =
    fi_inject_write host ep buf len dest_addr addr key
issue_rma host ep (RmaCall.writedata buf len desc cq_data dest_addr addr key context) =
    fi_writedata host ep buf len desc cq_data dest_addr addr key context
issue_rma host ep (RmaCall.inject_writedata buf len cq_data dest_addr addr key) =
    fi_inject_writedata host ep buf len cq_data dest_addr addr key

-- The method that the call stands for, and its arguments.
abbrev pub rma_method : RmaCall → FiOpsRma
rma_method (RmaCall.read buf len desc src_addr addr key context) = FiOpsRma.read
rma_method (RmaCall.readv iov desc count src_addr addr key context) = FiOpsRma.readv
rma_method (RmaCall.readmsg msg flags) = FiOpsRma.readmsg
rma_method (RmaCall.write buf len desc dest_addr addr key context) = FiOpsRma.write
rma_method (RmaCall.writev iov desc count dest_addr addr key context) = FiOpsRma.writev
rma_method (RmaCall.writemsg msg flags) = FiOpsRma.writemsg
rma_method (RmaCall.inject_write buf len dest_addr addr key) = FiOpsRma.inject
rma_method (RmaCall.writedata buf len desc cq_data dest_addr addr key context) = FiOpsRma.writedata
rma_method (RmaCall.inject_writedata buf len cq_data dest_addr addr key) = FiOpsRma.injectdata

abbrev pub rma_words : (ep : ℕ) → RmaCall → List ℕ
rma_words ep (RmaCall.read buf len desc src_addr addr key context) =
    ep ∷ buf ∷ len ∷ desc ∷ src_addr ∷ addr ∷ key ∷ context ∷ []
rma_words ep (RmaCall.readv iov desc count src_addr addr key context) =
    ep ∷ iov ∷ desc ∷ count ∷ src_addr ∷ addr ∷ key ∷ context ∷ []
rma_words ep (RmaCall.readmsg msg flags) = ep ∷ msg ∷ flags ∷ []
rma_words ep (RmaCall.write buf len desc dest_addr addr key context) =
    ep ∷ buf ∷ len ∷ desc ∷ dest_addr ∷ addr ∷ key ∷ context ∷ []
rma_words ep (RmaCall.writev iov desc count dest_addr addr key context) =
    ep ∷ iov ∷ desc ∷ count ∷ dest_addr ∷ addr ∷ key ∷ context ∷ []
rma_words ep (RmaCall.writemsg msg flags) = ep ∷ msg ∷ flags ∷ []
rma_words ep (RmaCall.inject_write buf len dest_addr addr key) =
    ep ∷ buf ∷ len ∷ dest_addr ∷ addr ∷ key ∷ []
rma_words ep (RmaCall.writedata buf len desc cq_data dest_addr addr key context) =
    ep ∷ buf ∷ len ∷ desc ∷ cq_data ∷ dest_addr ∷ addr ∷ key ∷ context ∷ []
rma_words ep (RmaCall.inject_writedata buf len cq_data dest_addr addr key) =
    ep ∷ buf ∷ len ∷ cq_data ∷ dest_addr ∷ addr ∷ key ∷ []

module _ {host : Host} {s : State} {ep : ℕ} {methods : FiOpsRma → Option Method}
    (r : Represents host s ep FidEp.rma methods) where
  pub issue_rma-perform :
      (c : RmaCall) → issue_rma host ep c s ≡ perform (methods (rma_method c)) (rma_words ep c) s
  unfolding issue_rma fi_read fi_readv fi_readmsg fi_write fi_writev fi_writemsg fi_inject_write
      fi_writedata fi_inject_writedata
  issue_rma-perform (RmaCall.read buf len desc src_addr addr key context) =
      vcall-perform r FiOpsRma.read _
  issue_rma-perform (RmaCall.readv iov desc count src_addr addr key context) =
      vcall-perform r FiOpsRma.readv _
  issue_rma-perform (RmaCall.readmsg msg flags) = vcall-perform r FiOpsRma.readmsg _
  issue_rma-perform (RmaCall.write buf len desc dest_addr addr key context) =
      vcall-perform r FiOpsRma.write _
  issue_rma-perform (RmaCall.writev iov desc count dest_addr addr key context) =
      vcall-perform r FiOpsRma.writev _
  issue_rma-perform (RmaCall.writemsg msg flags) = vcall-perform r FiOpsRma.writemsg _
  issue_rma-perform (RmaCall.inject_write buf len dest_addr addr key) =
      vcall-perform r FiOpsRma.inject _
  issue_rma-perform (RmaCall.writedata buf len desc cq_data dest_addr addr key context) =
      vcall-perform r FiOpsRma.writedata _
  issue_rma-perform (RmaCall.inject_writedata buf len cq_data dest_addr addr key) =
      vcall-perform r FiOpsRma.injectdata _
