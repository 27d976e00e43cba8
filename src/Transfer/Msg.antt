-- ===== src/Transfer/Msg.antt =====
-- The calls of include/fi_endpoint.h on messages, as data.
use xlibfabric.Base.{ℕ, ◌≡◌, Option, List, [], ◌∷◌, ℤ}
use xlibfabric.Machine.{Host, State, Method, M}
use xlibfabric.Machine.Dispatch.{Represents, perform, vcall-perform}
use xlibfabric.Endpoint.Layout.{FidEp, fid_ep_layout, FiOpsMsg, fi_ops_msg_layout}
use xlibfabric.Endpoint.{
  fi_recv, fi_recvv, fi_recvmsg, fi_send, fi_sendv, fi_sendmsg, fi_inject, fi_senddata,
  fi_injectdata,
}

-- A constructor for each call, with its arguments but for the endpoint.
pub data MsgCall : Type 0 where
  recv : (buf len desc src_addr context : ℕ) → MsgCall
  recvv : (iov desc count src_addr context : ℕ) → MsgCall
  recvmsg : (msg flags : ℕ) → MsgCall
  send : (buf len desc dest_addr context : ℕ) → MsgCall
  sendv : (iov desc count dest_addr context : ℕ) → MsgCall
  sendmsg : (msg flags : ℕ) → MsgCall
  inject : (buf len dest_addr : ℕ) → MsgCall
  senddata : (buf len desc cq_data dest_addr context : ℕ) → MsgCall
  injectdata : (buf len cq_data dest_addr : ℕ) → MsgCall

-- The C function of the call.
unfoldable pub issue_msg : Host → (ep : ℕ) → MsgCall → M ℤ
issue_msg host ep (MsgCall.recv buf len desc src_addr context) =
    fi_recv host ep buf len desc src_addr context
issue_msg host ep (MsgCall.recvv iov desc count src_addr context) =
    fi_recvv host ep iov desc count src_addr context
issue_msg host ep (MsgCall.recvmsg msg flags) = fi_recvmsg host ep msg flags
issue_msg host ep (MsgCall.send buf len desc dest_addr context) =
    fi_send host ep buf len desc dest_addr context
issue_msg host ep (MsgCall.sendv iov desc count dest_addr context) =
    fi_sendv host ep iov desc count dest_addr context
issue_msg host ep (MsgCall.sendmsg msg flags) = fi_sendmsg host ep msg flags
issue_msg host ep (MsgCall.inject buf len dest_addr) = fi_inject host ep buf len dest_addr
issue_msg host ep (MsgCall.senddata buf len desc cq_data dest_addr context) =
    fi_senddata host ep buf len desc cq_data dest_addr context
issue_msg host ep (MsgCall.injectdata buf len cq_data dest_addr) =
    fi_injectdata host ep buf len cq_data dest_addr

-- The method that the call stands for, and its arguments.
abbrev pub msg_method : MsgCall → FiOpsMsg
msg_method (MsgCall.recv buf len desc src_addr context) = FiOpsMsg.recv
msg_method (MsgCall.recvv iov desc count src_addr context) = FiOpsMsg.recvv
msg_method (MsgCall.recvmsg msg flags) = FiOpsMsg.recvmsg
msg_method (MsgCall.send buf len desc dest_addr context) = FiOpsMsg.send
msg_method (MsgCall.sendv iov desc count dest_addr context) = FiOpsMsg.sendv
msg_method (MsgCall.sendmsg msg flags) = FiOpsMsg.sendmsg
msg_method (MsgCall.inject buf len dest_addr) = FiOpsMsg.inject
msg_method (MsgCall.senddata buf len desc cq_data dest_addr context) = FiOpsMsg.senddata
msg_method (MsgCall.injectdata buf len cq_data dest_addr) = FiOpsMsg.injectdata

abbrev pub msg_words : (ep : ℕ) → MsgCall → List ℕ
msg_words ep (MsgCall.recv buf len desc src_addr context) =
    ep ∷ buf ∷ len ∷ desc ∷ src_addr ∷ context ∷ []
msg_words ep (MsgCall.recvv iov desc count src_addr context) =
    ep ∷ iov ∷ desc ∷ count ∷ src_addr ∷ context ∷ []
msg_words ep (MsgCall.recvmsg msg flags) = ep ∷ msg ∷ flags ∷ []
msg_words ep (MsgCall.send buf len desc dest_addr context) =
    ep ∷ buf ∷ len ∷ desc ∷ dest_addr ∷ context ∷ []
msg_words ep (MsgCall.sendv iov desc count dest_addr context) =
    ep ∷ iov ∷ desc ∷ count ∷ dest_addr ∷ context ∷ []
msg_words ep (MsgCall.sendmsg msg flags) = ep ∷ msg ∷ flags ∷ []
msg_words ep (MsgCall.inject buf len dest_addr) = ep ∷ buf ∷ len ∷ dest_addr ∷ []
msg_words ep (MsgCall.senddata buf len desc cq_data dest_addr context) =
    ep ∷ buf ∷ len ∷ desc ∷ cq_data ∷ dest_addr ∷ context ∷ []
msg_words ep (MsgCall.injectdata buf len cq_data dest_addr) =
    ep ∷ buf ∷ len ∷ cq_data ∷ dest_addr ∷ []

module _ {host : Host} {s : State} {ep : ℕ} {methods : FiOpsMsg → Option Method}
    (r : Represents host s ep FidEp.msg methods) where
  pub issue_msg-perform :
      (c : MsgCall) → issue_msg host ep c s ≡ perform (methods (msg_method c)) (msg_words ep c) s
  unfolding issue_msg fi_recv fi_recvv fi_recvmsg fi_send fi_sendv fi_sendmsg fi_inject fi_senddata
      fi_injectdata
  issue_msg-perform (MsgCall.recv buf len desc src_addr context) = vcall-perform r FiOpsMsg.recv _
  issue_msg-perform (MsgCall.recvv iov desc count src_addr context) =
      vcall-perform r FiOpsMsg.recvv _
  issue_msg-perform (MsgCall.recvmsg msg flags) = vcall-perform r FiOpsMsg.recvmsg _
  issue_msg-perform (MsgCall.send buf len desc dest_addr context) = vcall-perform r FiOpsMsg.send _
  issue_msg-perform (MsgCall.sendv iov desc count dest_addr context) =
      vcall-perform r FiOpsMsg.sendv _
  issue_msg-perform (MsgCall.sendmsg msg flags) = vcall-perform r FiOpsMsg.sendmsg _
  issue_msg-perform (MsgCall.inject buf len dest_addr) = vcall-perform r FiOpsMsg.inject _
  issue_msg-perform (MsgCall.senddata buf len desc cq_data dest_addr context) =
      vcall-perform r FiOpsMsg.senddata _
  issue_msg-perform (MsgCall.injectdata buf len cq_data dest_addr) =
      vcall-perform r FiOpsMsg.injectdata _
