-- ===== src/Scalable/Setup/Results.antt =====
-- The results that `bind_ep_res` of src/Scalable.hs drops.
use xlibfabric.Base.{ℕ, ◌+◌, ◌≡◌, refl, ◌∙◌, ◌≢◌, some, false, is_zero, ℤ, pos}
use xlibfabric.Machine.{Host, State, M, addr_of, load}
use xlibfabric.Machine.Dispatch.{>>=-some, load-some}
use xlibfabric.Domain.Layout.{FidAv, fid_av_layout}
use xlibfabric.Endpoint.{fi_scalable_ep_bind, fi_enable}
use xlibfabric.Scalable.{Env, ◌|->◌}
use xlibfabric.Scalable.Setup.{for_all, bind_tx, bind_rx, bind_ep_res}

-- `|->` does not run its second action behind a failure.
fail-|-> :
    (a b : M ℤ) (s t : State) (r : ℤ)
    → a s ≡ some (r, t)
    → is_zero r ≡ false
    → (a |-> b) s ≡ some (r, t)
fail-|-> a b s t r e failed = >>=-some a _ e ∙ rw failed refl

module _ (host : Host) (env : Env) (s t : State) (sep rx_size : ℕ) (r : ℤ) where
  -- If `fi_scalable_ep_bind` fails, with whatever error, `bind_ep_res` returns 0 all the same, in the
  -- state that the failed call left: no endpoint is bound or enabled, and no receive is posted. The
  -- endpoint and the size of the receive buffer must be mapped.
  pub bind_ep_res-fails :
      env.sep ≢ 0
      → s.cell (env.sep + 0) ≡ some sep
      → env.rx_size ≢ 0
      → s.cell (env.rx_size + 0) ≡ some rx_size
      → fi_scalable_ep_bind host sep (addr_of env.av FidAv.fid) 0 s ≡ some (r, t)
      → is_zero r ≡ false
      → bind_ep_res host env s ≡ some (pos 0, t)
  unfolding bind_ep_res
  bind_ep_res-fails sep_mapped has_sep size_mapped has_size e failed =
      let bind = fi_scalable_ep_bind host sep (addr_of env.av FidAv.fid) 0 in
      let sends = for_all env.ctx_cnt (bind_tx host env) in
      let recvs = for_all env.ctx_cnt (bind_rx host env rx_size) in
      let first = fail-|-> bind sends s t r e failed in
      let second = fail-|-> (bind |-> sends) recvs s t r first failed in
      let third = fail-|-> (bind |-> sends |-> recvs) (fi_enable host sep) s t r second failed in
      >>=-some (load env.sep 0) _ (load-some env.sep 0 sep s sep_mapped has_sep)
      ∙ >>=-some (load env.rx_size 0) _ (load-some env.rx_size 0 rx_size s size_mapped has_size)
      ∙ >>=-some (bind |-> sends |-> recvs |-> fi_enable host sep) _ third
