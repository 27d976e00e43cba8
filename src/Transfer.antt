-- ===== src/Transfer.antt =====
-- Data transfer on an endpoint: the calls of include/fi_endpoint.h, fi_tagged.h, fi_rma.h, fi_atomic.h
-- and fi_collective.h together, in sequence.
pub mod Msg
pub mod Tagged
pub mod Rma
pub mod Atomic
pub mod Collective
pub mod Sequence
use xlibfabric.Base.{ℕ, ◌≡◌, refl, ap, ◌∙◌, Option, none, some, List, [], ◌∷◌, ℤ}
use xlibfabric.Machine.{Host, State, Method, M, ◌>>=◌, pure}
use xlibfabric.Machine.Dispatch.{Represents, perform}
use xlibfabric.Machine.Outcomes.{bound, >>=_lem}
use xlibfabric.Endpoint.Layout.{FidEp, fid_ep_layout, FiOpsMsg, fi_ops_msg_layout}
use xlibfabric.Tagged.Layout.{FiOpsTagged, fi_ops_tagged_layout}
use xlibfabric.Rma.Layout.{FiOpsRma, fi_ops_rma_layout}
use xlibfabric.Atomic.Layout.{FiOpsAtomic, fi_ops_atomic_layout}
use xlibfabric.Collective.Layout.{FiOpsCollective, fi_ops_collective_layout}
use Msg.{MsgCall, issue_msg, msg_method, msg_words, issue_msg-perform}
use Tagged.{TaggedCall, issue_tagged, tagged_method, tagged_words, issue_tagged-perform}
use Rma.{RmaCall, issue_rma, rma_method, rma_words, issue_rma-perform}
use Atomic.{AtomicCall, issue_atomic, atomic_method, atomic_words, issue_atomic-perform}
use Collective.{
  CollectiveCall, issue_collective, collective_method, collective_words, issue_collective-perform,
}

pub data Call : Type 0 where
  msg : MsgCall → Call
  tagged : TaggedCall → Call
  rma : RmaCall → Call
  atomic : AtomicCall → Call
  collective : CollectiveCall → Call

-- The C function of the call.
unfoldable pub issue : Host → (ep : ℕ) → Call → M ℤ
issue host ep (Call.msg c) = issue_msg host ep c
issue host ep (Call.tagged c) = issue_tagged host ep c
issue host ep (Call.rma c) = issue_rma host ep c
issue host ep (Call.atomic c) = issue_atomic host ep c
issue host ep (Call.collective c) = issue_collective host ep c

-- What an endpoint promises, with no addresses of tables or functions: its methods.
pub record Methods : Type 0 where
  pub msg : FiOpsMsg → Option Method
  pub tagged : FiOpsTagged → Option Method
  pub rma : FiOpsRma → Option Method
  pub atomic : FiOpsAtomic → Option Method
  pub collective : FiOpsCollective → Option Method

unfoldable pub meaning : Methods → (ep : ℕ) → Call → M ℤ
meaning methods ep (Call.msg c) = perform (methods.msg (msg_method c)) (msg_words ep c)
meaning methods ep (Call.tagged c) = perform (methods.tagged (tagged_method c)) (tagged_words ep c)
meaning methods ep (Call.rma c) = perform (methods.rma (rma_method c)) (rma_words ep c)
meaning methods ep (Call.atomic c) = perform (methods.atomic (atomic_method c)) (atomic_words ep c)
meaning methods ep (Call.collective c) =
    perform (methods.collective (collective_method c)) (collective_words ep c)

-- In the memory of `s`, the five tables of the endpoint represent the methods.
pub record Serves (host : Host) (ep : ℕ) (methods : Methods) (s : State) : Type 0 where
  pub has_msg : Represents host s ep FidEp.msg methods.msg
  pub has_tagged : Represents host s ep FidEp.tagged methods.tagged
  pub has_rma : Represents host s ep FidEp.rma methods.rma
  pub has_atomic : Represents host s ep FidEp.atomic methods.atomic
  pub has_collective : Represents host s ep FidEp.collective methods.collective

-- On an endpoint whose tables represent abstract methods, each of the calls for data transfer is the
-- method of its kind, called once on the endpoint with the arguments in order, and its result and the
-- memory are those of the method. A call with a null entry is undefined.
pub issue-meaning :
    {host : Host} {ep : ℕ} {methods : Methods} {s : State}
    → Serves host ep methods s
    → (c : Call) → issue host ep c s ≡ meaning methods ep c s
unfolding issue meaning
issue-meaning serves (Call.msg c) = issue_msg-perform serves.has_msg c
issue-meaning serves (Call.tagged c) = issue_tagged-perform serves.has_tagged c
issue-meaning serves (Call.rma c) = issue_rma-perform serves.has_rma c
issue-meaning serves (Call.atomic c) = issue_atomic-perform serves.has_atomic c
issue-meaning serves (Call.collective c) = issue_collective-perform serves.has_collective c

-- The calls one after the other, with their results.
unfoldable pub in_order : (Call → M ℤ) → List Call → M (List ℤ)
in_order act [] = pure []
in_order act (c ∷ cs) = act c >>= λ r. in_order act cs >>= λ rs. pure (r ∷ rs)
