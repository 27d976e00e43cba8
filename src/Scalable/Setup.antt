-- ===== src/Scalable/Setup.antt =====
-- src/Scalable.hs: opening of the fabric, of the queues and of the contexts of the scalable endpoint.
pub mod Sizes
pub mod Results
pub mod Stale
use xlibfabric.Base.{
  ℕ, ◌+◌, ◌*◌, ◌%◌, ◌^◌, bit_and, max, min, Option, none, some, Bool, true, false, not, ◌==◌,
  is_zero, if◌then◌else◌, List, [], ◌∷◌, ℤ, pos,
}
use xlibfabric.Machine.{
  Host, State, Cells, M, Struct, offsetof, sizeof, addr_of, load, store, invoke, pure, ◌>>=◌, ◌>>◌,
}
use xlibfabric.Fabric.InfoFields.{
  FiInfoField, fi_info_field_layout, FiTxAttrField, fi_tx_attr_field_layout, FiRxAttrField,
  fi_rx_attr_field_layout, FiEpAttrField, fi_ep_attr_field_layout, FiDomainAttrField,
  fi_domain_attr_field_layout,
}
use xlibfabric.Domain.{fi_domain, fi_cq_open}
use xlibfabric.Domain.AvAttr.{FiAvAttr, fi_av_attr_layout}
use xlibfabric.Domain.Layout.{FidAv, fid_av_layout}
use xlibfabric.Endpoint.{
  fi_scalable_ep, fi_scalable_ep_bind, fi_ep_bind, fi_enable, fi_recv, fi_tx_context, fi_rx_context,
}
use xlibfabric.Endpoint.Layout.{FidEp, fid_ep_layout}
use xlibfabric.Eq.{fi_eq_open}
use xlibfabric.Eq.Attr.{FiCqAttr, fi_cq_attr_layout}
use xlibfabric.Eq.Layout.{FidCq, fid_cq_layout}
use xlibfabric.Shared.OptsFields.{FtOptsField, ft_opts_field_layout}
use xlibfabric.Scalable.{Env, Library, ◌|->◌, map_m, peek_struct}
use xlibfabric.Scalable.Attr.{ft_cq_set_wait_attr, ft_cntr_open, ctx_shift_r}
use xlibfabric.Scalable.Info.{field, ft_getinfo}

abbrev pub ft_check_opts : Env → ℕ → Bool
ft_check_opts env n = true

-- `ft_alloc_msgs`. The functions that set the sizes do nothing, and the prefixes are 0.
unfoldable pub ft_alloc_msgs : Env → M ℤ
ft_alloc_msgs env = do
  o ← peek_struct env.opts
  if ft_check_opts env (2 ^ 12) then pure (pos 0) else do
    options ← field env.opts FtOptsField.options o
    if not (bit_and options (2 ^ 15) == 0)
        then (do store env.rx_size 256; store env.tx_size 256; store env.buf_size (256 + 256))
        else do
          store env.rx_mr_size 0
          store env.tx_mr_size 0
          ts ← load env.tx_size 0
          rs ← load env.rx_size 0
          window_size ← field env.opts FtOptsField.window_size o
          store env.buf_size ((max ts 256 + max rs 256) * window_size % 2 ^ 64)
    pure (pos 0)

-- The format of the completions, from `caps`, if it is not chosen yet.
unfoldable pub set_format : (fmt_ caps : ℕ) → M (Unit {0})
set_format fmt_ caps = do
  fmt_v ← load fmt_ 0
  if fmt_v == 0
      then if not (bit_and caps (2 ^ 3) == 0) then store fmt_ 4 else store fmt_ 1
      else pure tt

-- The sizes of the queue of sends, which is the queue of both if FT_OPT_CQ_SHARED is set, and of the
-- queue of receives.
unfoldable pub tx_queue_size :
    (shared : Bool) (tx_cq_size rx_cq_size tx_attr_size rx_attr_size : ℕ) → ℕ
tx_queue_size shared tx_cq_size rx_cq_size tx_attr_size rx_attr_size =
    let size = if not (tx_cq_size == 0) then tx_cq_size else tx_attr_size in
    if shared
    then (if not (rx_cq_size == 0) then size + rx_cq_size else size + rx_attr_size) % 2 ^ 64
    else size

unfoldable pub rx_queue_size : (tx_cq_size rx_cq_size rx_attr_size : ℕ) → ℕ
rx_queue_size tx_cq_size rx_cq_size rx_attr_size =
    if not (tx_cq_size == 0) then rx_cq_size else rx_attr_size

abbrev pub is_set : (options k : ℕ) → Bool
is_set options k = not (bit_and options (2 ^ k) == 0)

-- `if b then (do ...; return ret) else return 0`, in the middle of a `do` block: the result is lost.
abbrev pub when : Bool → M ℤ → M (Unit {0})
when b m = if b then m >>= (λ _. pure tt) else pure tt

-- `poke d e` for all of `[0 .. cnt - 1]`, and `return 0`.
abbrev pub for_all : (cnt : ℕ) → (ℕ → M ℤ) → M ℤ
for_all cnt body = map_m body cnt 0 >>= λ _. pure (pos 0)

module _ (host : Host) where
  -- The queue of receives, which is opened if the queue is not shared.
  unfoldable pub open_rx_queue : Env → (d txattr rxattr tx_cq_size rx_cq_size : ℕ) → M ℤ
  open_rx_queue env d txattr rxattr tx_cq_size rx_cq_size = do
    ft_cq_set_wait_attr env
    _ ← load txattr (offsetof FiTxAttrField.size)
    asv ← load rxattr (offsetof FiRxAttrField.size)
    store (addr_of env.cq_attr FiCqAttr.size) (rx_queue_size tx_cq_size rx_cq_size asv)
    fi_cq_open host d env.cq_attr env.rxcq env.rxcq

  -- The body of `ft_alloc_ep_res` behind `ft_alloc_msgs`.
  unfoldable pub open_queues : Env → M ℤ
  open_queues env = do
    o ← peek_struct env.opts
    d ← load env.domain 0
    fi_ ← load env.fi 0
    caps ← load fi_ (offsetof FiInfoField.caps)
    txattr ← load fi_ (offsetof FiInfoField.tx_attr)
    rxattr ← load fi_ (offsetof FiInfoField.rx_attr)
    set_format (addr_of env.cq_attr FiCqAttr.format) caps
    ft_cq_set_wait_attr env
    tasv ← load txattr (offsetof FiTxAttrField.size)
    rasv ← load rxattr (offsetof FiRxAttrField.size)
    tx_cq_size ← field env.opts FtOptsField.tx_cq_size o
    rx_cq_size ← field env.opts FtOptsField.rx_cq_size o
    options ← field env.opts FtOptsField.options o
    store (addr_of env.cq_attr FiCqAttr.size)
        (tx_queue_size (is_set options 10) tx_cq_size rx_cq_size tasv rasv)
    _ ← fi_cq_open host d env.cq_attr env.txcq env.txcq
    when (is_set options 10) (do txcq_ ← load env.txcq 0; store env.rxcq txcq_; pure (pos 0))
    when (is_set options 6) (ft_cntr_open host env env.txcntr)
    when (not (is_set options 10)) (open_rx_queue env d txattr rxattr tx_cq_size rx_cq_size)
    when (is_set options 5) (ft_cntr_open host env env.rxcntr)
    fi' ← load env.fi 0
    ep_ ← load fi' (offsetof FiInfoField.ep_attr)
    _ ← load ep_ (offsetof FiEpAttrField.type)
    pure (pos 0)

  unfoldable pub ft_alloc_ep_res : Env → M ℤ
  ft_alloc_ep_res env = ft_alloc_msgs env |-> open_queues env

  -- The contexts of number `i`: the results of the four calls are dropped.
  unfoldable pub open_contexts : Env → (s i : ℕ) → M ℤ
  open_contexts env s i = do
    d ← load env.domain 0
    _ ← fi_tx_context host s i 0 (env.tx_ep + i * 8) 0
    _ ← fi_cq_open host d env.cq_attr (env.txcq_array + i * 8) 0
    _ ← fi_rx_context host s i 0 (env.rx_ep + i * 8) 0
    fi_cq_open host d env.cq_attr (env.rxcq_array + i * 8) 0

  unfoldable pub alloc_ep_res : Env → M ℤ
  alloc_ep_res env = elim (ctx_shift_r 33 env.ctx_cnt env.rx_ctx_bits) [
    | none ↦ λ st. none
    | some bits ↦ do
      store (addr_of env.av_attr FiAvAttr.rx_ctx_bits) bits
      ret ← ft_alloc_ep_res env
      if is_zero ret
          then (do s ← load env.sep 0; for_all env.ctx_cnt (open_contexts env s))
          else pure ret
  ]

  unfoldable pub bind_tx : Env → (i : ℕ) → M ℤ
  bind_tx env i = do
    t ← load env.tx_ep 0
    tcq ← load env.txcq_array 0
    fi_ep_bind host (t + i * sizeof FidEp) (addr_of (tcq + i * sizeof FidCq) FidCq.fid) 2048
        |-> fi_enable host (t + i * sizeof FidEp)

  unfoldable pub bind_rx : Env → (rs i : ℕ) → M ℤ
  bind_rx env rs i = do
    r ← load env.rx_ep 0
    rcq ← load env.rxcq_array 0
    fi_ep_bind host (r + i * sizeof FidEp) (addr_of (rcq + i * sizeof FidCq) FidCq.fid) 1024
        |-> fi_enable host (r + i * sizeof FidEp)
        |-> fi_recv host (r + i * sizeof FidEp) env.rx_buf (max rs 256) env.mr_desc 0 0

  unfoldable pub bind_ep_res : Env → M ℤ
  bind_ep_res env = do
    s ← load env.sep 0
    rs ← load env.rx_size 0
    _ ←
        fi_scalable_ep_bind host s (addr_of env.av FidAv.fid) 0
        |-> for_all env.ctx_cnt (bind_tx env)
        |-> for_all env.ctx_cnt (bind_rx env rs)
        |-> fi_enable host s
    pure (pos 0)

  module _ (lib : Library) where
    unfoldable pub ft_open_fabric_res : Env → M ℤ
    ft_open_fabric_res env = do
      fi' ← load env.fi 0
      fabric_attr ← load fi' (offsetof FiInfoField.fabric_attr)
      fab' ← load env.fab 0
      invoke host lib.fi_fabric (fabric_attr ∷ env.fab ∷ 0 ∷ [])
          |-> fi_eq_open host fab' env.eq_attr env.eq 0
          |-> fi_domain host fab' fi' env.domain 0

    unfoldable pub init_fabric : Env → M ℤ
    init_fabric env = do
      ret ← ft_getinfo host lib env
      if is_zero ret
          then (do
            fi' ← load env.fi 0
            domain_attr ← load fi' (offsetof FiInfoField.domain_attr)
            tx ← load domain_attr (offsetof FiDomainAttrField.tx_ctx_cnt)
            rx ← load domain_attr (offsetof FiDomainAttrField.rx_ctx_cnt)
            let ctxcnt = min (min env.ctx_cnt tx) rx
            if ctxcnt == 0 then pure (pos 1) else do
              ep_attr_ptr ← load fi' (offsetof FiInfoField.ep_attr)
              store (addr_of ep_attr_ptr FiEpAttrField.tx_ctx_cnt) ctxcnt
              store (addr_of ep_attr_ptr FiEpAttrField.rx_ctx_cnt) ctxcnt
              d ← load env.domain 0
              ft_open_fabric_res env
                  |-> fi_scalable_ep host d fi' env.sep 0
                  |-> alloc_ep_res env
                  |-> bind_ep_res env)
          else pure ret
