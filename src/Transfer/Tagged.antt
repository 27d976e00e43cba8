-- ===== src/Transfer/Tagged.antt =====
-- The calls of include/fi_tagged.h on tagged messages, as data.
use xlibfabric.Base.{ℕ, ◌≡◌, Option, List, [], ◌∷◌, ℤ}
use xlibfabric.Machine.{Host, State, Method, M}
use xlibfabric.Machine.Dispatch.{Represents, perform, vcall-perform}
use xlibfabric.Endpoint.Layout.{FidEp, fid_ep_layout}
use xlibfabric.Tagged.Layout.{FiOpsTagged, fi_ops_tagged_layout}
use xlibfabric.Tagged.{
  fi_trecv, fi_trecvv, fi_trecvmsg, fi_tsend, fi_tsendv, fi_tsendmsg, fi_tinject, fi_tsenddata,
  fi_tinjectdata,
}

-- A constructor for each call, with its arguments but for the endpoint.
pub data TaggedCall : Type 0 where
  trecv : (buf len desc src_addr tag ignore context : ℕ) → TaggedCall
  trecvv : (iov desc count src_addr tag ignore context : ℕ) → TaggedCall
  trecvmsg : (msg flags : ℕ) → TaggedCall
  tsend : (buf len desc dest_addr tag context : ℕ) → TaggedCall
  tsendv : (iov desc count dest_addr tag context : ℕ) → TaggedCall
  tsendmsg : (msg flags : ℕ) → TaggedCall
  tinject : (buf len dest_addr tag : ℕ) → TaggedCall
  tsenddata : (buf len desc cq_data dest_addr tag context : ℕ) → TaggedCall
  tinjectdata : (buf len cq_data dest_addr tag : ℕ) → TaggedCall

-- The C function of the call.
unfoldable pub issue_tagged : Host → (ep : ℕ) → TaggedCall → M ℤ
issue_tagged host ep (TaggedCall.trecv buf len desc src_addr tag ignore context) =
    fi_trecv host ep buf len desc src_addr tag ignore context
issue_tagged host ep (TaggedCall.trecvv iov desc count src_addr tag ignore context) =
    fi_trecvv host ep iov desc count src_addr tag ignore context
issue_tagged host ep (TaggedCall.trecvmsg msg flags) = fi_trecvmsg host ep msg flags
issue_tagged host ep (TaggedCall.tsend buf len desc dest_addr tag context) =
    fi_tsend host ep buf len desc dest_addr tag context
issue_tagged host ep (TaggedCall.tsendv iov desc count dest_addr tag context) =
    fi_tsendv host ep iov desc count dest_addr tag context
issue_tagged host ep (TaggedCall.tsendmsg msg flags) = fi_tsendmsg host ep msg flags
issue_tagged host ep (TaggedCall.tinject buf len dest_addr tag) =
    fi_tinject host ep buf len dest_addr tag
issue_tagged host ep (TaggedCall.tsenddata buf len desc cq_data dest_addr tag context) =
    fi_tsenddata host ep buf len desc cq_data dest_addr tag context
issue_tagged host ep (TaggedCall.tinjectdata buf len cq_data dest_addr tag) =
    fi_tinjectdata host ep buf len cq_data dest_addr tag

-- The method that the call stands for, and its arguments.
abbrev pub tagged_method : TaggedCall → FiOpsTagged
tagged_method (TaggedCall.trecv buf len desc src_addr tag ignore context) = FiOpsTagged.recv
tagged_method (TaggedCall.trecvv iov desc count src_addr tag ignore context) = FiOpsTagged.recvv
tagged_method (TaggedCall.trecvmsg msg flags) = FiOpsTagged.recvmsg
tagged_method (TaggedCall.tsend buf len desc dest_addr tag context) = FiOpsTagged.send
tagged_method (TaggedCall.tsendv iov desc count dest_addr tag context) = FiOpsTagged.sendv
tagged_method (TaggedCall.tsendmsg msg flags) = FiOpsTagged.sendmsg
tagged_method (TaggedCall.tinject buf len dest_addr tag) = FiOpsTagged.inject
tagged_method (TaggedCall.tsenddata buf len desc cq_data dest_addr tag context) =
    FiOpsTagged.senddata
tagged_method (TaggedCall.tinjectdata buf len cq_data dest_addr tag) = FiOpsTagged.injectdata

abbrev pub tagged_words : (ep : ℕ) → TaggedCall → List ℕ
tagged_words ep (TaggedCall.trecv buf len desc src_addr tag ignore context) =
    ep ∷ buf ∷ len ∷ desc ∷ src_addr ∷ tag ∷ ignore ∷ context ∷ []
tagged_words ep (TaggedCall.trecvv iov desc count src_addr tag ignore context) =
    ep ∷ iov ∷ desc ∷ count ∷ src_addr ∷ tag ∷ ignore ∷ context ∷ []
tagged_words ep (TaggedCall.trecvmsg msg flags) = ep ∷ msg ∷ flags ∷ []
tagged_words ep (TaggedCall.tsend buf len desc dest_addr tag context) =
    ep ∷ buf ∷ len ∷ desc ∷ dest_addr ∷ tag ∷ context ∷ []
tagged_words ep (TaggedCall.tsendv iov desc count dest_addr tag context) =
    ep ∷ iov ∷ desc ∷ count ∷ dest_addr ∷ tag ∷ context ∷ []
tagged_words ep (TaggedCall.tsendmsg msg flags) = ep ∷ msg ∷ flags ∷ []
tagged_words ep (TaggedCall.tinject buf len dest_addr tag) = ep ∷ buf ∷ len ∷ dest_addr ∷ tag ∷ []
tagged_words ep (TaggedCall.tsenddata buf len desc cq_data dest_addr tag context) =
    ep ∷ buf ∷ len ∷ desc ∷ cq_data ∷ dest_addr ∷ tag ∷ context ∷ []
tagged_words ep (TaggedCall.tinjectdata buf len cq_data dest_addr tag) =
    ep ∷ buf ∷ len ∷ cq_data ∷ dest_addr ∷ tag ∷ []

module _ {host : Host} {s : State} {ep : ℕ} {methods : FiOpsTagged → Option Method}
    (r : Represents host s ep FidEp.tagged methods) where
  pub issue_tagged-perform :
      (c : TaggedCall)
      → issue_tagged host ep c s ≡ perform (methods (tagged_method c)) (tagged_words ep c) s
  unfolding issue_tagged fi_trecv fi_trecvv fi_trecvmsg fi_tsend fi_tsendv fi_tsendmsg fi_tinject
      fi_tsenddata fi_tinjectdata
  issue_tagged-perform (TaggedCall.trecv buf len desc src_addr tag ignore context) =
      vcall-perform r FiOpsTagged.recv _
  issue_tagged-perform (TaggedCall.trecvv iov desc count src_addr tag ignore context) =
      vcall-perform r FiOpsTagged.recvv _
  issue_tagged-perform (TaggedCall.trecvmsg msg flags) = vcall-perform r FiOpsTagged.recvmsg _
  issue_tagged-perform (TaggedCall.tsend buf len desc dest_addr tag context) =
      vcall-perform r FiOpsTagged.send _
  issue_tagged-perform (TaggedCall.tsendv iov desc count dest_addr tag context) =
      vcall-perform r FiOpsTagged.sendv _
  issue_tagged-perform (TaggedCall.tsendmsg msg flags) = vcall-perform r FiOpsTagged.sendmsg _
  issue_tagged-perform (TaggedCall.tinject buf len dest_addr tag) =
      vcall-perform r FiOpsTagged.inject _
  issue_tagged-perform (TaggedCall.tsenddata buf len desc cq_data dest_addr tag context) =
      vcall-perform r FiOpsTagged.senddata _
  issue_tagged-perform (TaggedCall.tinjectdata buf len cq_data dest_addr tag) =
      vcall-perform r FiOpsTagged.injectdata _
