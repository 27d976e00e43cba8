-- ===== src/Scalable/Session.antt =====
-- src/Scalable.hs: exchange of the addresses, the test, and the run of the program. A computation with
-- result `none` still waits for a completion.
pub mod Outcome
use xlibfabric.Base.{
  ℕ, zero, suc, ◌+◌, ◌-◌, ◌*◌, ◌^◌, ltb, Option, none, some, Bool, not, ◌==◌, is_zero,
  if◌then◌else◌, ℤ, pos, negsuc,
}
use xlibfabric.Machine.{
  Host, State, M, Struct, offsetof, sizeof, addr_of, load, store, assign, alloca, pure, ◌>>=◌, ◌>>◌,
}
use xlibfabric.Fabric.InfoFields.{FiInfoField, fi_info_field_layout}
use xlibfabric.Endpoint.{fi_recv, fi_send}
use xlibfabric.Endpoint.Layout.{FidEp, fid_ep_layout}
use xlibfabric.Eq.Layout.{FidCq, fid_cq_layout}
use xlibfabric.Domain.Address.{fi_rx_addr}
use xlibfabric.Cm.{fi_getname}
use xlibfabric.Shared.OptsFields.{FtOptsField, ft_opts_field_layout}
use xlibfabric.Scalable.{Env, Library, map_m}
use xlibfabric.Scalable.Attr.{ft_av_insert}
use xlibfabric.Scalable.Setup.{init_fabric}
use xlibfabric.Scalable.Wait.{wait_for_comp}

-- `a |-> b`, where a computation may still wait.
infixl 6 ◌~>◌
abbrev pub ◌~>◌ : M (Option ℤ) → M (Option ℤ) → M (Option ℤ)
a ~> b = a >>= λ done. elim done [
  | none ↦ pure none
  | some ret ↦ if is_zero ret then b else pure (some ret)
]

-- A call of the library, which does not wait.
abbrev pub at_once : M ℤ → M (Option ℤ)
at_once m = m >>= λ ret. pure (some ret)

abbrev pub datum : ℕ
datum = 305419888

-- The number in a cell as a `CLong`.
abbrev signed : ℕ → ℤ
signed v = if ltb v (2 ^ 63) then pos v else negsuc (2 ^ 64 - 1 - v)

-- The address of a receive context, which is computed and dropped.
unfoldable pub rx_address : (rfa x rx_ctx_bits : ℕ) → M ℤ
rx_address rfa x rx_ctx_bits s = elim (fi_rx_addr rfa (pos x) rx_ctx_bits) [
  | none ↦ none
  | some a ↦ some (pos a, s)
]

-- The two guards of `run_test_send`, and of `run_test_recv`.
abbrev pub send_ends : (i : ℕ) → ℤ → M (Option ℤ) → M (Option ℤ)
send_ends i ret body =
    if i == 2 then pure (some ret) else if is_zero ret then pure (some (pos 0)) else body

abbrev pub recv_ends : (i : ℕ) → ℤ → M (Option ℤ) → M (Option ℤ)
recv_ends i ret body =
    if i == 0 then pure (some ret) else if is_zero ret then pure (some (pos 0)) else body

module _ (host : Host) where
  -- `rounds` bounds the recursion, `fuel` the polls of each wait.
  unfoldable pub run_test_send : (rounds fuel tb : ℕ) → Env → (i : ℕ) → ℤ → M (Option ℤ)
  run_test_send zero fuel tb env i ret = send_ends i ret (pure none)
  run_test_send (suc rounds) fuel tb env i ret = send_ends i ret (do
    store tb (datum + i)
    t ← load env.tx_ep 0
    tcq ← load env.txcq_array 0
    rra ← load (env.remote_rx_addr + i * 8) 0
    ts ← load env.tx_size 0
    at_once (fi_send host (t + i * sizeof FidEp) env.tx_buf ts env.mr_desc rra 0) ~> (do
      done ← wait_for_comp host fuel (tcq + i * sizeof FidCq)
      elim done [ none ↦ pure none | some r ↦ run_test_send rounds fuel tb env (i + 1) r ]))

  unfoldable pub run_test_recv : (rounds fuel rb : ℕ) → Env → (i : ℕ) → ℤ → M (Option ℤ)
  run_test_recv zero fuel rb env i ret = recv_ends i ret (pure none)
  run_test_recv (suc rounds) fuel rb env i ret = recv_ends i ret (do
    rcq ← load env.rxcq_array 0
    done ← wait_for_comp host fuel (rcq + i * sizeof FidCq)
    elim done [
      | none ↦ pure none
      | some _ ↦ do r ← load rb 0; run_test_recv rounds fuel rb env (i + 1) (signed r)
    ])

  unfoldable pub run_test : (rounds fuel : ℕ) → Env → M (Option ℤ)
  run_test rounds fuel env = do
    dst_addr ← load env.opts (offsetof FtOptsField.dst_addr)
    if not (dst_addr == 0)
        then run_test_send rounds fuel env.tx_buf env 0 (pos 0)
        else run_test_recv rounds fuel env.rx_buf env 0 (pos 0)

  -- The address of the peer is read before it is inserted.
  unfoldable pub init_av_a : (fuel : ℕ) → Env → M (Option ℤ)
  init_av_a fuel env = alloca host 8 λ addrlen. do
    t ← load env.tx_ep 0
    assign addrlen 256
    s ← load env.sep 0
    fi' ← load env.fi 0
    dest_addr ← load fi' (offsetof FiInfoField.dest_addr)
    rcq ← load env.rxcq_array 0
    rfa ← load env.remote_fi_addr 0
    at_once (ft_av_insert host env.av dest_addr 1 env.remote_fi_addr 0 0)
        ~> at_once (fi_getname host (addr_of s FidEp.fid) env.tx_buf addrlen)
        ~> at_once (load addrlen 0 >>= λ al. fi_send host t env.tx_buf al env.mr_desc rfa 0)
        ~> wait_for_comp host fuel rcq

  unfoldable pub init_av_b : (fuel : ℕ) → Env → M (Option ℤ)
  init_av_b fuel env = do
    t ← load env.tx_ep 0
    rcq ← load env.rxcq_array 0
    rfa ← load env.remote_fi_addr 0
    wait_for_comp host fuel rcq
        ~> at_once (ft_av_insert host env.av env.rx_buf 1 env.remote_fi_addr 0 0)
        ~> at_once (fi_send host t env.tx_buf 1 env.mr_desc rfa 0)

  -- `mapM_ (\x -> c'fi_rx_addr rfa x rx_ctx_bits) [0 .. cnt - 1]`.
  unfoldable pub rx_addresses : (rfa rx_ctx_bits cnt : ℕ) → M (Unit {0})
  rx_addresses rfa rx_ctx_bits cnt = map_m (λ x. rx_address rfa x rx_ctx_bits) cnt 0

  -- The second half of `init_av`.
  unfoldable pub await_peer : (fuel : ℕ) → Env → M (Option ℤ)
  await_peer fuel env = do
    r ← load env.rx_ep 0
    tcq ← load env.txcq_array 0
    rfa ← load env.remote_fi_addr 0
    rs ← load env.rx_size 0
    at_once (
          rx_addresses rfa env.rx_ctx_bits env.ctx_cnt
          >> fi_recv host r env.rx_buf rs env.mr_desc 0 0)
        ~> wait_for_comp host fuel tcq

  -- The result of the first half is dropped.
  unfoldable pub init_av : (fuel : ℕ) → Env → M (Option ℤ)
  init_av fuel env = do
    dst_addr ← load env.opts (offsetof FtOptsField.dst_addr)
    done ← if not (dst_addr == 0) then init_av_a fuel env else init_av_b fuel env
    elim done [ none ↦ pure none | some _ ↦ await_peer fuel env ]

  unfoldable pub run : Library → (rounds fuel : ℕ) → Env → M (Option ℤ)
  run lib rounds fuel env =
      at_once (init_fabric host lib env) ~> init_av fuel env ~> run_test rounds fuel env
