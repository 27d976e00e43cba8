-- ===== src/Scalable/Program/Never.antt =====
-- The program of src/Scalable.hs as it starts.
use xlibfabric.Base.{
  ℕ, ◌<◌, ◌≡◌, refl, sym, ap, ◌∙◌, ◌≢◌, arith, Option, none, some, ℤ, pos, negsuc, ◌==◌, Bool, true,
  false, if◌then◌else◌,
}
use xlibfabric.Machine.{Host, State, M, alloca, assign, ◌>>=◌, pure}
use xlibfabric.Machine.Outcomes.{bound, >>=_lem}
use xlibfabric.Fabric.{fi_allocinfo}
use xlibfabric.Scalable.{Env, Library}
use xlibfabric.Scalable.Session.{run}
use xlibfabric.Scalable.Session.Outcome.{run-NotZero}
use xlibfabric.Scalable.Program.{poke_eq_attr, poke_init_opts, with_hints, with_env, scalable}

-- A computation that never ends with this result.
abbrev Never : {A : Type 0} → A → M A → Type 0
Never a m = (s t : State) → m s ≢ some (a, t)

bind-Never :
    {A B : Type 0} {b : B} (m : M A) (f : A → M B) → ((a : A) → Never b (f a)) → Never b (m >>= f)
bind-Never {A = A} {b = b} m f never s t e = bound-Never (m s) (sym (>>=_lem m f s) ∙ e)
  where
    bound-Never : (x : Option (A × State)) → bound f x ≢ some (b, t)
    bound-Never none e = cc
    bound-Never (some (a, u)) e = never a u t e

alloca-Never :
    {A : Type 0} {a : A} (host : Host) (n : ℕ) (body : ℕ → M A)
    → ((p : ℕ) → Never a (body p))
    → Never a (alloca host n body)
unfolding alloca
alloca-Never host n body never s t e =
    let block = host.allocate n s.cell in never block.0 (record s { cell = block.1 }) t e

if-Never :
    {A : Type 0} {a : A} {m n : M A} (c : Bool)
    → Never a m
    → Never a n
    → Never a (if c then m else n)
if-Never true on_true on_false s t e = on_true s t e
if-Never false on_true on_false s t e = on_false s t e

kept-Never :
    (x : Option (Option ℤ × State)) (t : State)
    → ((u : State) → x ≢ some (some (pos 0), u))
    → bound (λ ret. pure (some ret)) x ≢ some (some (some (pos 0)), t)
kept-Never none t never e = cc
kept-Never (some (ret, u)) t never e =
    let same : ret ≡ some (pos 0) = cc in absurd (never u (ap (λ r. some (r, u)) same))

module _ (host : Host) (lib : Library) (rounds fuel : ℕ) where
  returned-Never :
      (env : Env)
      → ((s t : State) → run host lib rounds fuel env s ≢ some (some (pos 0), t))
      → Never (some (some (pos 0))) (run host lib rounds fuel env >>= λ ret. pure (some ret))
  returned-Never env never s t e =
      kept-Never (run host lib rounds fuel env s) t (never s)
        (sym (>>=_lem (run host lib rounds fuel env) (λ ret. pure (some ret)) s) ∙ e)

  with_hints-Never :
      (env : Env) (h : ℤ)
      → env.rx_ctx_bits ≡ 0
      → 0 < env.ctx_cnt
      → Never (some (some (pos 0))) (with_hints host lib rounds fuel env h)
  unfolding with_hints
  with_hints-Never env (negsuc h) no_bits some_contexts = λ s t e. cc
  with_hints-Never env (pos h) no_bits some_contexts =
      if-Never (h == 0) (λ s t e. cc)
        (bind-Never (assign env.hints h) _ λ _.
          bind-Never (poke_init_opts env.opts) _
            λ _. returned-Never env (run-NotZero host env no_bits some_contexts lib rounds fuel))

  with_env-Never :
      (env : Env)
      → env.rx_ctx_bits ≡ 0
      → 0 < env.ctx_cnt
      → Never (some (some (pos 0))) (with_env host lib rounds fuel env)
  unfolding with_env
  with_env-Never env no_bits some_contexts =
      bind-Never (poke_eq_attr env.eq_attr) _
        λ _. bind-Never (fi_allocinfo host) _ λ h. with_hints-Never env h no_bits some_contexts

  -- On whatever provider, and with whatever memory, the program never ends with a run that returned 0:
  -- it has no hints, or the run fails, or it still waits, or it is undefined.
  pub scalable-Never :
      (s t : State) → scalable host lib rounds fuel s ≢ some (some (some (pos 0)), t)
  unfolding scalable
  scalable-Never = alloca-Never host _ _ λ p0. alloca-Never host _ _ λ p1.
      alloca-Never host _ _ λ p2. alloca-Never host _ _ λ p3. alloca-Never host _ _ λ p4.
        alloca-Never host _ _ λ p5. alloca-Never host _ _ λ p6. alloca-Never host _ _ λ p7.
          alloca-Never host _ _ λ p8. alloca-Never host _ _ λ p9. alloca-Never host _ _ λ p10.
            alloca-Never host _ _ λ p11. alloca-Never host _ _ λ p12. alloca-Never host _ _ λ p13.
              alloca-Never host _ _ λ p14. alloca-Never host _ _ λ p15. alloca-Never host _ _ λ p16.
                alloca-Never host _ _ λ p17. alloca-Never host _ _ λ p18.
                  alloca-Never host _ _ λ p19. alloca-Never host _ _ λ p20.
                    alloca-Never host _ _ λ p21. alloca-Never host _ _ λ p22.
                      alloca-Never host _ _ λ p23. alloca-Never host _ _ λ p24.
                        alloca-Never host _ _ λ p25. alloca-Never host _ _ λ p26.
                          alloca-Never host _ _ λ p27. alloca-Never host _ _ λ p28.
                            alloca-Never host _ _ λ p29. alloca-Never host _ _ λ p30.
                              alloca-Never host _ _ λ p31. alloca-Never host _ _ λ p32.
                                alloca-Never host _ _ λ p33.
                                  alloca-Never host _ _ λ p34. with_env-Never _ refl (omega arith)
