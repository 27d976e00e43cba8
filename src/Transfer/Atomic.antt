-- ===== src/Transfer/Atomic.antt =====
-- The calls of include/fi_atomic.h on atomic operations, as data.
use xlibfabric.Base.{ℕ, ◌≡◌, Option, List, [], ◌∷◌, ℤ}
use xlibfabric.Machine.{Host, State, Method, M}
use xlibfabric.Machine.Dispatch.{Represents, perform, vcall-perform}
use xlibfabric.Endpoint.Layout.{FidEp, fid_ep_layout}
use xlibfabric.Atomic.Layout.{FiOpsAtomic, fi_ops_atomic_layout}
use xlibfabric.Atomic.{
  fi_atomic, fi_atomicv, fi_atomicmsg, fi_inject_atomic, fi_fetch_atomic, fi_fetch_atomicv,
  fi_fetch_atomicmsg, fi_compare_atomic, fi_compare_atomicv, fi_compare_atomicmsg, fi_atomicvalid,
  fi_fetch_atomicvalid, fi_compare_atomicvalid,
}

-- A constructor for each call, with its arguments but for the endpoint.
pub data AtomicCall : Type 0 where
  atomic : (buf count desc dest_addr addr key datatype op context : ℕ) → AtomicCall
  atomicv : (iov desc count dest_addr addr key datatype op context : ℕ) → AtomicCall
  atomicmsg : (msg flags : ℕ) → AtomicCall
  inject_atomic : (buf count dest_addr addr key datatype op : ℕ) → AtomicCall
  fetch_atomic :
      (buf count desc result result_desc dest_addr addr key datatype op context : ℕ) → AtomicCall
  fetch_atomicv :
      (iov desc count resultv result_desc result_count dest_addr addr key datatype op context : ℕ)
      → AtomicCall
  fetch_atomicmsg : (msg resultv result_desc result_count flags : ℕ) → AtomicCall
  compare_atomic :
      (buf count desc compare compare_desc result result_desc dest_addr addr key datatype op
        context : ℕ)
      → AtomicCall
  compare_atomicv :
      (iov desc count comparev compare_desc compare_count resultv result_desc result_count dest_addr
        addr key datatype op context : ℕ)
      → AtomicCall
  compare_atomicmsg :
      (msg comparev compare_desc compare_count resultv result_desc result_count flags : ℕ)
      → AtomicCall
  atomicvalid : (datatype op count : ℕ) → AtomicCall
  fetch_atomicvalid : (datatype op count : ℕ) → AtomicCall
  compare_atomicvalid : (datatype op count : ℕ) → AtomicCall

-- The C function of the call.
unfoldable pub issue_atomic : Host → (ep : ℕ) → AtomicCall → M ℤ
issue_atomic host ep (AtomicCall.atomic buf count desc dest_addr addr key datatype op context) =
    fi_atomic host ep buf count desc dest_addr addr key datatype op context
issue_atomic host ep (AtomicCall.atomicv iov desc count dest_addr addr key datatype op context) =
    fi_atomicv host ep iov desc count dest_addr addr key datatype op context
issue_atomic host ep (AtomicCall.atomicmsg msg flags) = fi_atomicmsg host ep msg flags
issue_atomic host ep (AtomicCall.inject_atomic buf count dest_addr addr key datatype op) =
    fi_inject_atomic host ep buf count dest_addr addr key datatype op
issue_atomic host ep
      (AtomicCall.fetch_atomic buf count desc result result_desc dest_addr addr key datatype op
        context) =
    fi_fetch_atomic host ep buf count desc result result_desc dest_addr addr key datatype op context
issue_atomic host ep
      (AtomicCall.fetch_atomicv iov desc count resultv result_desc result_count dest_addr addr key
        datatype op context) =
    fi_fetch_atomicv host ep iov desc count resultv result_desc result_count dest_addr addr key
      datatype op context
issue_atomic host ep (AtomicCall.fetch_atomicmsg msg resultv result_desc result_count flags) =
    fi_fetch_atomicmsg host ep msg resultv result_desc result_count flags
issue_atomic host ep
      (AtomicCall.compare_atomic buf count desc compare compare_desc result result_desc dest_addr
        addr key datatype op context) =
    fi_compare_atomic host ep buf count desc compare compare_desc result result_desc dest_addr addr
      key datatype op context
issue_atomic host ep
      (AtomicCall.compare_atomicv iov desc count comparev compare_desc compare_count resultv
        result_desc result_count dest_addr addr key datatype op context) =
    fi_compare_atomicv host ep iov desc count comparev compare_desc compare_count resultv
      result_desc result_count dest_addr addr key datatype op context
issue_atomic host ep
      (AtomicCall.compare_atomicmsg msg comparev compare_desc compare_count resultv result_desc
        result_count flags) =
    fi_compare_atomicmsg host ep msg comparev compare_desc compare_count resultv result_desc
      result_count flags
issue_atomic host ep (AtomicCall.atomicvalid datatype op count) =
    fi_atomicvalid host ep datatype op count
issue_atomic host ep (AtomicCall.fetch_atomicvalid datatype op count) =
    fi_fetch_atomicvalid host ep datatype op count
issue_atomic host ep (AtomicCall.compare_atomicvalid datatype op count) =
    fi_compare_atomicvalid host ep datatype op count

-- The method that the call stands for, and its arguments.
abbrev pub atomic_method : AtomicCall → FiOpsAtomic
atomic_method (AtomicCall.atomic buf count desc dest_addr addr key datatype op context) =
    FiOpsAtomic.write
atomic_method (AtomicCall.atomicv iov desc count dest_addr addr key datatype op context) =
    FiOpsAtomic.writev
atomic_method (AtomicCall.atomicmsg msg flags) = FiOpsAtomic.writemsg
atomic_method (AtomicCall.inject_atomic buf count dest_addr addr key datatype op) =
    FiOpsAtomic.inject
atomic_method
      (AtomicCall.fetch_atomic buf count desc result result_desc dest_addr addr key datatype op
        context) =
    FiOpsAtomic.readwrite
atomic_method
      (AtomicCall.fetch_atomicv iov desc count resultv result_desc result_count dest_addr addr key
        datatype op context) =
    FiOpsAtomic.readwritev
atomic_method (AtomicCall.fetch_atomicmsg msg resultv result_desc result_count flags) =
    FiOpsAtomic.readwritemsg
atomic_method
      (AtomicCall.compare_atomic buf count desc compare compare_desc result result_desc dest_addr
        addr key datatype op context) =
    FiOpsAtomic.compwrite
atomic_method
      (AtomicCall.compare_atomicv iov desc count comparev compare_desc compare_count resultv
        result_desc result_count dest_addr addr key datatype op context) =
    FiOpsAtomic.compwritev
atomic_method
      (AtomicCall.compare_atomicmsg msg comparev compare_desc compare_count resultv result_desc
        result_count flags) =
    FiOpsAtomic.compwritemsg
atomic_method (AtomicCall.atomicvalid datatype op count) = FiOpsAtomic.writevalid
atomic_method (AtomicCall.fetch_atomicvalid datatype op count) = FiOpsAtomic.readwritevalid
atomic_method (AtomicCall.compare_atomicvalid datatype op count) = FiOpsAtomic.compwritevalid

abbrev pub atomic_words : (ep : ℕ) → AtomicCall → List ℕ
atomic_words ep (AtomicCall.atomic buf count desc dest_addr addr key datatype op context) =
    ep ∷ buf ∷ count ∷ desc ∷ dest_addr ∷ addr ∷ key ∷ datatype ∷ op ∷ context ∷ []
atomic_words ep (AtomicCall.atomicv iov desc count dest_addr addr key datatype op context) =
    ep ∷ iov ∷ desc ∷ count ∷ dest_addr ∷ addr ∷ key ∷ datatype ∷ op ∷ context ∷ []
atomic_words ep (AtomicCall.atomicmsg msg flags) = ep ∷ msg ∷ flags ∷ []
atomic_words ep (AtomicCall.inject_atomic buf count dest_addr addr key datatype op) =
    ep ∷ buf ∷ count ∷ dest_addr ∷ addr ∷ key ∷ datatype ∷ op ∷ []
atomic_words ep
      (AtomicCall.fetch_atomic buf count desc result result_desc dest_addr addr key datatype op
        context) =
    ep ∷ buf ∷ count ∷ desc ∷ result ∷ result_desc ∷ dest_addr ∷ addr ∷ key ∷ datatype ∷ op
    ∷ context ∷ []
atomic_words ep
      (AtomicCall.fetch_atomicv iov desc count resultv result_desc result_count dest_addr addr key
        datatype op context) =
    ep ∷ iov ∷ desc ∷ count ∷ resultv ∷ result_desc ∷ result_count ∷ dest_addr ∷ addr ∷ key
    ∷ datatype ∷ op ∷ context ∷ []
atomic_words ep (AtomicCall.fetch_atomicmsg msg resultv result_desc result_count flags) =
    ep ∷ msg ∷ resultv ∷ result_desc ∷ result_count ∷ flags ∷ []
atomic_words ep
      (AtomicCall.compare_atomic buf count desc compare compare_desc result result_desc dest_addr
        addr key datatype op context) =
    ep ∷ buf ∷ count ∷ desc ∷ compare ∷ compare_desc ∷ result ∷ result_desc ∷ dest_addr ∷ addr ∷ key
    ∷ datatype ∷ op ∷ context ∷ []
atomic_words ep
      (AtomicCall.compare_atomicv iov desc count comparev compare_desc compare_count resultv
        result_desc result_count dest_addr addr key datatype op context) =
    ep ∷ iov ∷ desc ∷ count ∷ comparev ∷ compare_desc ∷ compare_count ∷ resultv ∷ result_desc
    ∷ result_count ∷ dest_addr ∷ addr ∷ key ∷ datatype ∷ op ∷ context ∷ []
atomic_words ep
      (AtomicCall.compare_atomicmsg msg comparev compare_desc compare_count resultv result_desc
        result_count flags) =
    ep ∷ msg ∷ comparev ∷ compare_desc ∷ compare_count ∷ resultv ∷ result_desc ∷ result_count
    ∷ flags ∷ []
atomic_words ep (AtomicCall.atomicvalid datatype op count) = ep ∷ datatype ∷ op ∷ count ∷ []
atomic_words ep (AtomicCall.fetch_atomicvalid datatype op count) = ep ∷ datatype ∷ op ∷ count ∷ []
atomic_words ep (AtomicCall.compare_atomicvalid datatype op count) = ep ∷ datatype ∷ op ∷ count ∷ []

module _ {host : Host} {s : State} {ep : ℕ} {methods : FiOpsAtomic → Option Method}
    (r : Represents host s ep FidEp.atomic methods) where
  pub issue_atomic-perform :
      (c : AtomicCall)
      → issue_atomic host ep c s ≡ perform (methods (atomic_method c)) (atomic_words ep c) s
  unfolding issue_atomic fi_atomic fi_atomicv fi_atomicmsg fi_inject_atomic fi_fetch_atomic
      fi_fetch_atomicv fi_fetch_atomicmsg fi_compare_atomic fi_compare_atomicv fi_compare_atomicmsg
      fi_atomicvalid fi_fetch_atomicvalid fi_compare_atomicvalid
  issue_atomic-perform (AtomicCall.atomic buf count desc dest_addr addr key datatype op context) =
      vcall-perform r FiOpsAtomic.write _
  issue_atomic-perform (AtomicCall.atomicv iov desc count dest_addr addr key datatype op context) =
      vcall-perform r FiOpsAtomic.writev _
  issue_atomic-perform (AtomicCall.atomicmsg msg flags) = vcall-perform r FiOpsAtomic.writemsg _
  issue_atomic-perform (AtomicCall.inject_atomic buf count dest_addr addr key datatype op) =
      vcall-perform r FiOpsAtomic.inject _
  issue_atomic-perform
        (AtomicCall.fetch_atomic buf count desc result result_desc dest_addr addr key datatype op
          context) =
      vcall-perform r FiOpsAtomic.readwrite _
  issue_atomic-perform
        (AtomicCall.fetch_atomicv iov desc count resultv result_desc result_count dest_addr addr key
          datatype op context) =
      vcall-perform r FiOpsAtomic.readwritev _
  issue_atomic-perform (AtomicCall.fetch_atomicmsg msg resultv result_desc result_count flags) =
      vcall-perform r FiOpsAtomic.readwritemsg _
  issue_atomic-perform
        (AtomicCall.compare_atomic buf count desc compare compare_desc result result_desc dest_addr
          addr key datatype op context) =
      vcall-perform r FiOpsAtomic.compwrite _
  issue_atomic-perform
        (AtomicCall.compare_atomicv iov desc count comparev compare_desc compare_count resultv
          result_desc result_count dest_addr addr key datatype op context) =
      vcall-perform r FiOpsAtomic.compwritev _
  issue_atomic-perform
        (AtomicCall.compare_atomicmsg msg comparev compare_desc compare_count resultv result_desc
          result_count flags) =
      vcall-perform r FiOpsAtomic.compwritemsg _
  issue_atomic-perform (AtomicCall.atomicvalid datatype op count) =
      vcall-perform r FiOpsAtomic.writevalid _
  issue_atomic-perform (AtomicCall.fetch_atomicvalid datatype op count) =
      vcall-perform r FiOpsAtomic.readwritevalid _
  issue_atomic-perform (AtomicCall.compare_atomicvalid datatype op count) =
      vcall-perform r FiOpsAtomic.compwritevalid _
