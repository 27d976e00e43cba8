-- ===== src/Scalable/Program.antt =====
-- src/Scalable.hs: `scalable`, which allocates the environment and runs the test in it.
pub mod Never
use xlibfabric.Base.{ℕ, ◌+◌, ◌^◌, bit_or, Option, none, some, if◌then◌else◌, ◌==◌, ℤ, pos, negsuc}
use xlibfabric.Machine.{Host, M, Struct, sizeof, addr_of, assign, alloca, pure, ◌>>=◌, ◌>>◌}
use xlibfabric.Fabric.{fi_allocinfo}
use xlibfabric.Domain.AvAttr.{FiAvAttr, fi_av_attr_layout}
use xlibfabric.Domain.Layout.{FidAv, fid_av_layout}
use xlibfabric.Eq.Attr.{
  FiEqAttr, fi_eq_attr_layout, FiCqAttr, fi_cq_attr_layout, FiCntrAttr, fi_cntr_attr_layout,
}
use xlibfabric.Eq.Layout.{FidWait, fid_wait_layout}
use xlibfabric.Shared.OptsFields.{FtOptsField, ft_opts_field_layout}
use xlibfabric.Scalable.{Env, Library}
use xlibfabric.Scalable.Session.{run}

-- `poke e'eq_attr (Eq.C'fi_eq_attr 0 0 1 0 nullPtr)`.
unfoldable pub poke_eq_attr : ℕ → M (Unit {0})
poke_eq_attr p = do
  assign (addr_of p FiEqAttr.size) 0
  assign (addr_of p FiEqAttr.flags) 0
  assign (addr_of p FiEqAttr.wait_obj) 1
  assign (addr_of p FiEqAttr.signaling_vector) 0
  assign (addr_of p FiEqAttr.wait_set) 0

-- `poke e'opts init_opts`.
unfoldable pub poke_init_opts : ℕ → M (Unit {0})
poke_init_opts p = do
  assign (addr_of p FtOptsField.iterations) 1000
  assign (addr_of p FtOptsField.warmup_iterations) 10
  assign (addr_of p FtOptsField.transfer_size) 1024
  assign (addr_of p FtOptsField.window_size) 64
  assign (addr_of p FtOptsField.av_size) 1
  assign (addr_of p FtOptsField.verbose) 0
  assign (addr_of p FtOptsField.tx_cq_size) 0
  assign (addr_of p FtOptsField.rx_cq_size) 0
  assign (addr_of p FtOptsField.src_port) 0
  assign (addr_of p FtOptsField.dst_port) 0
  assign (addr_of p FtOptsField.src_addr) 0
  assign (addr_of p FtOptsField.dst_addr) 0
  assign (addr_of p FtOptsField.av_name) 0
  assign (addr_of p FtOptsField.sizes_enabled) 1
  assign (addr_of p FtOptsField.options) (bit_or (2 ^ 3) (2 ^ 4))
  assign (addr_of p FtOptsField.comp_method) 0
  assign (addr_of p FtOptsField.machr) 0
  assign (addr_of p FtOptsField.rma_op) 2
  assign (addr_of p FtOptsField.oob_port) 0
  assign (addr_of p FtOptsField.argc) 0
  assign (addr_of p FtOptsField.num_connections) 2
  assign (addr_of p FtOptsField.address_format) 0
  assign (addr_of p FtOptsField.mr_mode) (bit_or (bit_or (bit_or (2 ^ 2) (2 ^ 4)) (2 ^ 5)) (2 ^ 6))
  assign (addr_of p FtOptsField.force_prefix) 0
  assign (addr_of p FtOptsField.iface) 0
  assign (addr_of p FtOptsField.device) 0
  assign (addr_of p FtOptsField.argv) 0

module _ (host : Host) (lib : Library) (rounds fuel : ℕ) where
  -- The run with the hints at this address, or none if there are no hints.
  unfoldable pub with_hints : Env → ℤ → M (Option (Option ℤ))
  with_hints env (negsuc h) = pure none
  with_hints env (pos h) = if h == 0 then pure none else do
    assign env.hints h
    poke_init_opts env.opts
    ret ← run host lib rounds fuel env
    pure (some ret)

  unfoldable pub with_env : Env → M (Option (Option ℤ))
  with_env env = do poke_eq_attr env.eq_attr; h ← fi_allocinfo host; with_hints env h

  -- The local variables in the order of their allocation. A `Ptr ()` points at no bytes. `Env` is
  -- given the queue and the counter of sends in the places of those of receives, and the other way
  -- round. The source drops the result of the run.
  unfoldable pub scalable : M (Option (Option ℤ))
  scalable = alloca host 8 λ e_sep. alloca host 16 λ e_tx_ep. alloca host 16 λ e_rx_ep.
      alloca host 8 λ e_rxcq. alloca host 8 λ e_txcq. alloca host 16 λ e_txcq_array.
        alloca host 16 λ e_rxcq_array. alloca host 8 λ e_remote_rx_addr.
          alloca host (sizeof FiCqAttr) λ e_cq_attr. alloca host (sizeof FiAvAttr) λ e_av_attr.
            alloca host (sizeof FidAv) λ e_av. alloca host 8 λ e_hints. alloca host 8 λ e_fi.
              alloca host 8 λ e_domain. alloca host 1 λ e_buf. alloca host 0 λ e_tx_buf.
                alloca host 0 λ e_rx_buf. alloca host 0 λ e_mr_desc.
                  alloca host 8 λ e_remote_fi_addr. alloca host 8 λ e_rx_size.
                    alloca host 8 λ e_tx_size. alloca host 8 λ e_rx_mr_size.
                      alloca host 8 λ e_tx_mr_size. alloca host 8 λ e_buf_size.
                        alloca host 8 λ e_fab. alloca host (sizeof FiEqAttr) λ e_eq_attr.
                          alloca host 8 λ e_eq. alloca host (sizeof FtOptsField) λ e_opts.
                            alloca host 8 λ e_node. alloca host 8 λ e_service.
                              alloca host 8 λ e_flags.
                                alloca host (sizeof FiCntrAttr) λ e_cntr_attr.
                                  alloca host 8 λ e_rxcntr. alloca host 8 λ e_txcntr.
                                    alloca host (sizeof FidWait) λ e_waitset. with_env (record {
                                      ctx_cnt = 2;
                                      rx_ctx_bits = 0;
                                      sep = e_sep;
                                      tx_ep = e_tx_ep;
                                      rx_ep = e_rx_ep;
                                      rxcq = e_txcq;
                                      txcq = e_rxcq;
                                      txcq_array = e_txcq_array;
                                      rxcq_array = e_rxcq_array;
                                      remote_rx_addr = e_remote_rx_addr;
                                      cq_attr = e_cq_attr;
                                      av_attr = e_av_attr;
                                      av = e_av;
                                      hints = e_hints;
                                      fi = e_fi;
                                      domain = e_domain;
                                      buf = e_buf;
                                      tx_buf = e_tx_buf;
                                      rx_buf = e_rx_buf;
                                      mr_desc = e_mr_desc;
                                      remote_fi_addr = e_remote_fi_addr;
                                      rx_size = e_rx_size;
                                      tx_size = e_tx_size;
                                      rx_mr_size = e_rx_mr_size;
                                      tx_mr_size = e_tx_mr_size;
                                      buf_size = e_buf_size;
                                      fab = e_fab;
                                      eq_attr = e_eq_attr;
                                      eq = e_eq;
                                      opts = e_opts;
                                      node = e_node;
                                      service = e_service;
                                      flags = e_flags;
                                      cntr_attr = e_cntr_attr;
                                      rxcntr = e_txcntr;
                                      txcntr = e_rxcntr;
                                      waitset = e_waitset;
                                    })
