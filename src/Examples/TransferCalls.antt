-- ===== src/Examples/TransferCalls.antt =====
-- A sequence of calls of `Transfer` at the demonstration memory.
use xlibfabric.Base.{
  ℕ, ◌+◌, ◌≡◌, refl, ◌≢◌, sym, ap, ◌∙◌, arith, List, [], ◌∷◌, Option, none, some, ℤ,
}
use xlibfabric.Machine.{State, Struct, offsetof, update}
use xlibfabric.Machine.Dispatch.{Represents, perform}
use xlibfabric.Endpoint.Layout.{FidEp, fid_ep_layout, fi_ops_msg_layout}
use xlibfabric.Tagged.Layout.{fi_ops_tagged_layout}
use xlibfabric.Rma.Layout.{fi_ops_rma_layout}
use xlibfabric.Atomic.Layout.{fi_ops_atomic_layout}
use xlibfabric.Collective.Layout.{fi_ops_collective_layout}
use xlibfabric.Transfer.{Call, issue, Methods, meaning, in_order}
use xlibfabric.Transfer.Msg.{MsgCall, msg_words}
use xlibfabric.Transfer.Tagged.{tagged_words}
use xlibfabric.Transfer.Rma.{RmaCall, rma_words}
use xlibfabric.Transfer.Atomic.{atomic_words}
use xlibfabric.Transfer.Collective.{collective_words}
use xlibfabric.Transfer.Sequence.{Lasts, in_order-meaning}
use xlibfabric.Examples.World.{digest, demo_host, demo, provider}

abbrev methods : Methods
methods = record {
  msg = provider 16 FidEp.msg;
  tagged = provider 16 FidEp.tagged;
  rma = provider 16 FidEp.rma;
  atomic = provider 16 FidEp.atomic;
  collective = provider 16 FidEp.collective;
}

-- The memory of the demonstration, but for the digest at address 8.
abbrev Demo : State → Type 0
Demo s = (q : ℕ) → q ≢ 8 → s.cell q ≡ some (q + 1000)

demo-table :
    {G : Type 0} ⦃ops_layout : Struct G⦄ (table : FidEp) (s : State)
    → Demo s
    → Represents demo_host s 16 table (provider {G = G} 16 table)
demo-table table s same = record {
  ops = 16 + offsetof table + 1000;
  entry = λ k. 16 + offsetof table + 1000 + offsetof k + 1000;
  obj_mapped = omega arith;
  ops_mapped = omega arith;
  points = same _ (omega arith);
  holds = λ k. same _ (omega arith);
  binds = λ k. (omega arith, refl);
}

-- The cell at `q` behind a call.
abbrev cell_after : ℕ → Option (ℤ × State) → Option ℕ
cell_after q none = none
cell_after q (some (r, t)) = t.cell q

perform-Demo :
    (fn : ℕ) (words : List ℕ) (s t : State) (r : ℤ)
    → Demo s
    → perform (some (demo_host.call fn)) words s ≡ some (r, t)
    → Demo t
perform-Demo fn words s t r same e q other =
    let left : update s.cell 8 (digest words) q ≡ s.cell q = ground arith in
    sym (ap (cell_after q) e) ∙ left ∙ same q other

meaning-Demo :
    (s t : State) (c : Call) (r : ℤ) → Demo s → meaning methods 16 c s ≡ some (r, t) → Demo t
unfolding meaning
meaning-Demo s t (Call.msg c) r same e = perform-Demo _ (msg_words 16 c) s t r same e
meaning-Demo s t (Call.tagged c) r same e = perform-Demo _ (tagged_words 16 c) s t r same e
meaning-Demo s t (Call.rma c) r same e = perform-Demo _ (rma_words 16 c) s t r same e
meaning-Demo s t (Call.atomic c) r same e = perform-Demo _ (atomic_words 16 c) s t r same e
meaning-Demo s t (Call.collective c) r same e = perform-Demo _ (collective_words 16 c) s t r same e

methods-Lasts : Lasts demo_host 16 methods Demo
methods-Lasts = record {
  serves = λ s same. record {
    has_msg = demo-table FidEp.msg s same;
    has_tagged = demo-table FidEp.tagged s same;
    has_rma = demo-table FidEp.rma s same;
    has_atomic = demo-table FidEp.atomic s same;
    has_collective = demo-table FidEp.collective s same;
  };
  lasts = meaning-Demo;
}

abbrev two_calls : List Call
two_calls = Call.msg (MsgCall.send 1 2 3 4 5) ∷ Call.rma (RmaCall.write 1 2 3 4 5 6 7) ∷ []

in_order-meaning_example :
    in_order (issue demo_host 16) two_calls demo ≡ in_order (meaning methods 16) two_calls demo
in_order-meaning_example = in_order-meaning methods-Lasts (λ q other. refl) two_calls
