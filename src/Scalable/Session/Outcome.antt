-- ===== src/Scalable/Session/Outcome.antt =====
-- How the test and the run of src/Scalable.hs end.
use xlibfabric.Base.{
  ℕ, zero, suc, ◌+◌, ◌<◌, ◌≡◌, refl, sym, ◌∙◌, ◌≢◌, Option, none, some, arith, Bool-cases, inl, inr,
  is_zero, not, ◌==◌, if◌then◌else◌, ℤ, pos, negsuc,
}
use xlibfabric.Machine.{Host, State, M, offsetof, load, ◌>>=◌, ◌>>◌, pure}
use xlibfabric.Machine.Dispatch.{>>=-some, load-some}
use xlibfabric.Machine.Outcomes.{bound, >>=_lem, bind-none, bind-stuck}
use xlibfabric.Domain.Address.{fi_rx_addr}
use xlibfabric.Endpoint.{fi_recv}
use xlibfabric.Shared.OptsFields.{FtOptsField, ft_opts_field_layout}
use xlibfabric.Scalable.{Env, Library, map_m}
use xlibfabric.Scalable.Session.{
  ◌~>◌, rx_address, at_once, run_test_send, run_test_recv, run_test, init_av_a, init_av_b,
  rx_addresses, await_peer, init_av, run,
}
use xlibfabric.Scalable.Setup.{init_fabric}

send_lem :
    (host : Host) (rounds fuel : ℕ) (env : Env) (s : State)
    → run_test_send host rounds fuel env.tx_buf env 0 (pos 0) s ≡ some (some (pos 0), s)
unfolding run_test_send
send_lem host zero fuel env s = refl
send_lem host (suc rounds) fuel env s = refl

recv_lem :
    (host : Host) (rounds fuel : ℕ) (env : Env) (s : State)
    → run_test_recv host rounds fuel env.rx_buf env 0 (pos 0) s ≡ some (some (pos 0), s)
unfolding run_test_recv
recv_lem host zero fuel env s = refl
recv_lem host (suc rounds) fuel env s = refl

module _ (host : Host) (rounds fuel : ℕ) (env : Env) (s : State) where
  -- The test returns 0 at once, as a client and as a server: it makes no call and leaves the memory as
  -- it is. The options must be mapped.
  pub run_test-idle :
      (dst_addr : ℕ)
      → env.opts ≢ 0
      → s.cell (env.opts + offsetof FtOptsField.dst_addr) ≡ some dst_addr
      → run_test host rounds fuel env s ≡ some (some (pos 0), s)
  unfolding run_test
  run_test-idle dst_addr mapped e =
      >>=-some (load env.opts (offsetof FtOptsField.dst_addr)) _
        (load-some env.opts (offsetof FtOptsField.dst_addr) dst_addr s mapped e)
      ∙ elim (Bool-cases (dst_addr == 0)) [
        | inl null ↦ rw null (recv_lem host rounds fuel env s)
        | inr other ↦ rw other (send_lem host rounds fuel env s)
      ]

-- A computation that never ends with 0.
abbrev NotZero : M (Option ℤ) → Type 0
NotZero m = (s t : State) → m s ≢ some (some (pos 0), t)

abbrev Outcome : Type 0
Outcome = Option (Option ℤ × State)

-- What `~> b` does with the result of its first computation.
abbrev next : M (Option ℤ) → Option ℤ → M (Option ℤ)
next b done = elim done [ none ↦ pure none | some ret ↦ if is_zero ret then b else pure (some ret) ]

next-kept :
    (b : M (Option ℤ)) (x : Outcome) (t : State)
    → ((u : State) → x ≢ some (some (pos 0), u))
    → bound (next b) x ≢ some (some (pos 0), t)
next-kept b none t never e = cc
next-kept b (some (none, u)) t never e = cc
next-kept b (some (some (pos zero), u)) t never e = absurd (never u refl)
next-kept b (some (some (pos (suc n)), u)) t never e = cc
next-kept b (some (some (negsuc n), u)) t never e = cc

next-NotZero :
    (b : M (Option ℤ)) (x : Outcome) (t : State)
    → NotZero b
    → bound (next b) x ≢ some (some (pos 0), t)
next-NotZero b none t never e = cc
next-NotZero b (some (none, u)) t never e = cc
next-NotZero b (some (some (pos zero), u)) t never e = never u t e
next-NotZero b (some (some (pos (suc n)), u)) t never e = cc
next-NotZero b (some (some (negsuc n), u)) t never e = cc

left-NotZero : (a b : M (Option ℤ)) → NotZero a → NotZero (a ~> b)
left-NotZero a b never s t e = next-kept b (a s) t (never s) (sym (>>=_lem a (next b) s) ∙ e)

right-NotZero : (a b : M (Option ℤ)) → NotZero b → NotZero (a ~> b)
right-NotZero a b never s t e = next-NotZero b (a s) t never (sym (>>=_lem a (next b) s) ∙ e)

bind-NotZero :
    {A : Type 0} (m : M A) (f : A → M (Option ℤ)) → ((a : A) → NotZero (f a)) → NotZero (m >>= f)
bind-NotZero m f never s t e = bound-NotZero (m s) (sym (>>=_lem m f s) ∙ e)
  where
    bound-NotZero : (x : Option (_ × State)) → bound f x ≢ some (some (pos 0), t)
    bound-NotZero none e = cc
    bound-NotZero (some (a, u)) e = never a u t e

ended-NotZero :
    (b : M (Option ℤ))
    → NotZero b
    → (done : Option ℤ) → NotZero (elim done [ none ↦ pure none | some _ ↦ b ])
ended-NotZero b never none s t e = cc
ended-NotZero b never (some ret) s t e = never s t e

module _ (host : Host) (env : Env) (no_bits : env.rx_ctx_bits ≡ 0)
    (some_contexts : 0 < env.ctx_cnt) where
  rx_addresses-stuck :
      (rfa cnt : ℕ) (s : State) → 0 < cnt → rx_addresses host rfa env.rx_ctx_bits cnt s ≡ none
  unfolding rx_addresses map_m rx_address fi_rx_addr
  rx_addresses-stuck rfa zero s positive = absurd (omega arith)
  rx_addresses-stuck rfa (suc cnt) s positive = rw no_bits refl

  await_peer-stuck : (fuel : ℕ) (s : State) → await_peer host fuel env s ≡ none
  unfolding await_peer
  await_peer-stuck fuel s = bind-none (load env.rx_ep 0) _ s λ r s.
      bind-none (load env.txcq_array 0) _ s λ tcq s.
        bind-none (load env.remote_fi_addr 0) _ s λ rfa s.
          bind-none (load env.rx_size 0) _ s λ rs s.
            bind-stuck
              (at_once (
                rx_addresses host rfa env.rx_ctx_bits env.ctx_cnt
                >> fi_recv host r env.rx_buf rs env.mr_desc 0 0))
              _ s
              (bind-stuck
                (rx_addresses host rfa env.rx_ctx_bits env.ctx_cnt
                  >> fi_recv host r env.rx_buf rs env.mr_desc 0 0)
                _ s
                (bind-stuck (rx_addresses host rfa env.rx_ctx_bits env.ctx_cnt) _ s
                  (rx_addresses-stuck rfa env.ctx_cnt s some_contexts)))

  init_av-NotZero : (fuel : ℕ) → NotZero (init_av host fuel env)
  unfolding init_av
  init_av-NotZero fuel = bind-NotZero (load env.opts (offsetof FtOptsField.dst_addr)) _ λ dst_addr.
      bind-NotZero
        (if not (dst_addr == 0) then init_av_a host fuel env else init_av_b host fuel env) _
        λ done.
          ended-NotZero (await_peer host fuel env)
            (λ s t e. let stuck = await_peer-stuck fuel s in cc) done

  -- The run never ends with 0.
  pub run-NotZero :
      (lib : Library) (rounds fuel : ℕ) (s t : State)
      → run host lib rounds fuel env s ≢ some (some (pos 0), t)
  unfolding run
  run-NotZero lib rounds fuel =
      left-NotZero (at_once (init_fabric host lib env) ~> init_av host fuel env)
        (run_test host rounds fuel env)
        (right-NotZero (at_once (init_fabric host lib env)) (init_av host fuel env)
          (init_av-NotZero fuel))
