-- ===== src/Examples/Attributes.antt =====
-- The environment that `scalable` sets up, and the attributes and sizes that depend on the options.
use xlibfabric.Base.{
  ℕ, ◌+◌, ◌^◌, ◌<◌, ◌≤◌, ◌≡◌, refl, ◌↔◌, ◌⊎◌, ◌≢◌, arith, some, true, false, ◌==◌, if◌then◌else◌, ℤ,
  pos, negsuc,
}
use xlibfabric.Machine.{Host, State, addr_of, vcall, load, invoke}
use xlibfabric.Eq.Attr.{
  FiWaitObj, fi_wait_obj_code, FiCqWaitCond, fi_cq_wait_cond_code, FiCqAttr, fi_cq_attr_layout,
  FiCntrAttr, fi_cntr_attr_layout,
}
use xlibfabric.Shared.OptsFields.{FtCompMethod}
use xlibfabric.Domain.{fi_av_insert}
use xlibfabric.Scalable.{Env, is_negative}
use xlibfabric.Scalable.Attr.{
  ft_cq_set_wait_attr, ft_cntr_set_wait_attr, ft_av_insert, ctx_shift_r, documented_shift,
}
use xlibfabric.Scalable.Attr.Written.{ft_cq_set_wait_attr-Written, ft_cntr_set_wait_attr-Written}
use xlibfabric.Scalable.Attr.Insert.{ft_av_insert-result}
use xlibfabric.Scalable.Attr.Bits.{ctx_shift_r-bits}
use xlibfabric.Scalable.Setup.{tx_queue_size, rx_queue_size}
use xlibfabric.Scalable.Setup.Sizes.{size_or, documented_tx_size, queue_sizes-documented}
use xlibfabric.Examples.World.{demo, bump}

abbrev pub env : Env
env = record {
  ctx_cnt = 2;
  rx_ctx_bits = 0;
  sep = 4400;
  tx_ep = 4600;
  rx_ep = 4800;
  rxcq = 5000;
  txcq = 5200;
  txcq_array = 5400;
  rxcq_array = 5600;
  remote_rx_addr = 5800;
  cq_attr = 6000;
  av_attr = 6200;
  av = 6400;
  hints = 6600;
  fi = 6800;
  domain = 7000;
  buf = 7200;
  tx_buf = 7400;
  rx_buf = 7600;
  mr_desc = 7800;
  remote_fi_addr = 8000;
  rx_size = 8200;
  tx_size = 8400;
  rx_mr_size = 8600;
  tx_mr_size = 8800;
  buf_size = 9000;
  fab = 9200;
  eq_attr = 9400;
  eq = 9600;
  opts = 9800;
  node = 10000;
  service = 10200;
  flags = 10400;
  cntr_attr = 10600;
  rxcntr = 10800;
  txcntr = 11000;
  waitset = 11200;
}

-- The options choose FT_COMP_WAITSET.
abbrev waits : State
waits = record { cell = λ q. if q == 9888 then some 2 else some (q + 1000); sp = 100000 }

ft_cq_set_wait_attr-Written_example :
    (t : State) × (ft_cq_set_wait_attr env waits ≡ some (tt, t))
    × (t.cell (addr_of env.cq_attr FiCqAttr.wait_obj) ≡ some (fi_wait_obj_code FiWaitObj.set))
    × (t.cell (addr_of env.cq_attr FiCqAttr.wait_cond)
        ≡ some (fi_cq_wait_cond_code FiCqWaitCond.threshold))
    × (t.cell (addr_of env.cq_attr FiCqAttr.wait_set) ≡ some env.waitset)
ft_cq_set_wait_attr-Written_example =
    ft_cq_set_wait_attr-Written env FtCompMethod.waitset waits (omega arith) (omega arith) refl _
      refl _ _ refl refl

ft_cntr_set_wait_attr-Written_example :
    (t : State) × (ft_cntr_set_wait_attr env waits ≡ some (tt, t))
    × (t.cell (addr_of env.cq_attr FiCqAttr.wait_obj) ≡ some (fi_wait_obj_code FiWaitObj.set))
    × ((q : ℕ) → q ≢ addr_of env.cq_attr FiCqAttr.wait_obj → t.cell q ≡ waits.cell q)
    × (addr_of env.cntr_attr FiCntrAttr.wait_obj ≢ addr_of env.cq_attr FiCqAttr.wait_obj
        → t.cell (addr_of env.cntr_attr FiCntrAttr.wait_obj)
          ≡ waits.cell (addr_of env.cntr_attr FiCntrAttr.wait_obj))
ft_cntr_set_wait_attr-Written_example =
    ft_cntr_set_wait_attr-Written env FtCompMethod.waitset waits (omega arith) (omega arith) refl _
      refl

-- A provider that inserts one address, whatever the count.
abbrev one_host : Host
one_host = record {
  call = λ fn args c. some (pos 1, c);
  fi_dupinfo = 7;
  enosys = 38;
  allocate = bump;
}

ft_av_insert-result_example :
    (r : ℤ) × (ft_av_insert one_host 16 2 3 4 5 6 demo ≡ some (r, demo))
    × ((r ≡ pos 0) ↔ (pos 1 ≡ pos 3))
    × ((r ≡ pos 0)
        ⊎ (((is_negative (pos 1) ≡ true) × (r ≡ pos 1))
            ⊎ ((is_negative (pos 1) ≡ false) × (r ≡ negsuc 0))))
unfolding fi_av_insert vcall load invoke
ft_av_insert-result_example =
    ft_av_insert-result one_host 16 2 3 4 5 6 demo demo (pos 1) (omega arith) refl

ctx_shift_r-bits_example :
    (k : ℕ) × (2 ^ k ≤ 5)
    × (5 < 2 ^ (k + 1))
    × (documented_shift 32 5 0 ≡ some (k + 1))
    × (ctx_shift_r 33 5 0 ≡ some (k + 2))
ctx_shift_r-bits_example = ctx_shift_r-bits 5 (omega arith) (omega arith)

-- Two sizes of the options.
abbrev no_size : ℕ
no_size = 0

abbrev four : ℕ
four = 4

queue_sizes-documented_example :
    (tx_queue_size true 0 4 7 9 ≡ documented_tx_size true 0 4 7 9)
    × ((rx_queue_size 0 4 9 ≡ size_or 4 9) ↔ (((no_size ≡ 0) ↔ (four ≡ 0)) ⊎ (four ≡ 9)))
queue_sizes-documented_example = queue_sizes-documented true 0 4 7 9 (omega arith)
