-- ===== src/Scalable/Attr/Written.antt =====
-- What `ft_cq_set_wait_attr` and `ft_cntr_set_wait_attr` of src/Scalable.hs leave in memory, beside the
-- C functions that its comments quote.
use xlibfabric.Base.{ℕ, ◌+◌, ◌≡◌, refl, ◌∙◌, ◌≢◌, some, arith}
use xlibfabric.Machine.{State, offsetof, addr_of, load, store, update}
use xlibfabric.Machine.Dispatch.{>>=-some, load-some, store-some}
use xlibfabric.Eq.Attr.{
  FiWaitObj, fi_wait_obj_code, FiCqWaitCond, fi_cq_wait_cond_code, FiCqAttr, fi_cq_attr_layout,
  FiCntrAttr, fi_cntr_attr_layout,
}
use xlibfabric.Shared.OptsFields.{
  FtCompMethod, ft_comp_method_code, FtOptsField, ft_opts_field_layout,
}
use xlibfabric.Scalable.{Env}
use xlibfabric.Scalable.Attr.{
  set_wait, cq_wait_case, cntr_wait_case, ft_cq_set_wait_attr, ft_cntr_set_wait_attr,
}

-- The wait object of each completion method in the C functions.
abbrev pub documented_obj : FtCompMethod → FiWaitObj
documented_obj FtCompMethod.spin = FiWaitObj.none
documented_obj FtCompMethod.sread = FiWaitObj.unspec
documented_obj FtCompMethod.waitset = FiWaitObj.set
documented_obj FtCompMethod.wait_fd = FiWaitObj.fd
documented_obj FtCompMethod.yield = FiWaitObj.yield

-- The condition in the attributes after the call: the C function would set `FI_CQ_COND_NONE`.
abbrev pub cond_after : FtCompMethod → ℕ → ℕ
cond_after FtCompMethod.spin old = old
cond_after FtCompMethod.sread old = fi_cq_wait_cond_code FiCqWaitCond.threshold
cond_after FtCompMethod.waitset old = fi_cq_wait_cond_code FiCqWaitCond.threshold
cond_after FtCompMethod.wait_fd old = fi_cq_wait_cond_code FiCqWaitCond.threshold
cond_after FtCompMethod.yield old = fi_cq_wait_cond_code FiCqWaitCond.threshold

abbrev pub set_after : FtCompMethod → (given old : ℕ) → ℕ
set_after FtCompMethod.spin given old = old
set_after FtCompMethod.sread given old = old
set_after FtCompMethod.waitset given old = given
set_after FtCompMethod.wait_fd given old = old
set_after FtCompMethod.yield given old = old

cntr_wait_case_lem :
    (attr : ℕ) (m : FtCompMethod) (s : State)
    → cntr_wait_case attr (ft_comp_method_code m) s
      ≡ store (addr_of attr FiCqAttr.wait_obj) (fi_wait_obj_code (documented_obj m)) s
unfolding cntr_wait_case
cntr_wait_case_lem attr FtCompMethod.spin s = refl
cntr_wait_case_lem attr FtCompMethod.sread s = refl
cntr_wait_case_lem attr FtCompMethod.waitset s = refl
cntr_wait_case_lem attr FtCompMethod.wait_fd s = refl
cntr_wait_case_lem attr FtCompMethod.yield s = refl

-- The two assignments that the methods but FT_COMP_SPIN share.
set_wait_lem :
    (attr v : ℕ) (s : State) {obj cond set : ℕ}
    → attr ≢ 0
    → s.cell (addr_of attr FiCqAttr.wait_obj) ≡ some obj
    → s.cell (addr_of attr FiCqAttr.wait_cond) ≡ some cond
    → s.cell (addr_of attr FiCqAttr.wait_set) ≡ some set
    → (t : State) × (set_wait (addr_of attr FiCqAttr.wait_obj) (addr_of attr FiCqAttr.wait_cond) v s
        ≡ some (tt, t))
      × (t.cell (addr_of attr FiCqAttr.wait_obj) ≡ some v)
      × (t.cell (addr_of attr FiCqAttr.wait_cond) ≡ some 1)
      × (t.cell (addr_of attr FiCqAttr.wait_set) ≡ some set)
set_wait_lem attr v s {obj} {cond} mapped o c w =
    let stored = record s { cell = update s.cell (addr_of attr FiCqAttr.wait_obj) v } in
    let kept : stored.cell (addr_of attr FiCqAttr.wait_cond) ≡ some cond = ground (arith, c) in
    (
      _,
      >>=-some (store (addr_of attr FiCqAttr.wait_obj) v) _ (store-some _ v obj s (omega arith) o)
          ∙ store-some _ 1 cond stored (omega arith) kept,
      ground arith,
      ground arith,
      ground (arith, w),
    )

-- The queue's attributes before the call: their addresses are mapped.
cq_wait_case_lem :
    (attr given : ℕ) (m : FtCompMethod) (s : State) (obj cond set : ℕ)
    → attr ≢ 0
    → s.cell (addr_of attr FiCqAttr.wait_obj) ≡ some obj
    → s.cell (addr_of attr FiCqAttr.wait_cond) ≡ some cond
    → s.cell (addr_of attr FiCqAttr.wait_set) ≡ some set
    → (t : State) × (cq_wait_case attr given (ft_comp_method_code m) s ≡ some (tt, t))
      × (t.cell (addr_of attr FiCqAttr.wait_obj) ≡ some (fi_wait_obj_code (documented_obj m)))
      × (t.cell (addr_of attr FiCqAttr.wait_cond) ≡ some (cond_after m cond))
      × (t.cell (addr_of attr FiCqAttr.wait_set) ≡ some (set_after m given set))
unfolding cq_wait_case
cq_wait_case_lem attr given FtCompMethod.spin s obj cond set mapped o c w =
    (_, store-some _ 0 obj s (omega arith) o, ground arith, ground (arith, c), ground (arith, w))
cq_wait_case_lem attr given FtCompMethod.sread s obj cond set mapped o c w =
    set_wait_lem attr 1 s mapped o c w
cq_wait_case_lem attr given FtCompMethod.waitset s obj cond set mapped o c w =
    let (t, run, t_obj, t_cond, t_set) = set_wait_lem attr 2 s mapped o c w in
    (
      _,
      >>=-some (set_wait (addr_of attr FiCqAttr.wait_obj) (addr_of attr FiCqAttr.wait_cond) 2) _ run
          ∙ store-some _ given set t (omega arith) t_set,
      ground (arith, t_obj),
      ground (arith, t_cond),
      ground arith,
    )
cq_wait_case_lem attr given FtCompMethod.wait_fd s obj cond set mapped o c w =
    set_wait_lem attr 3 s mapped o c w
cq_wait_case_lem attr given FtCompMethod.yield s obj cond set mapped o c w =
    set_wait_lem attr 5 s mapped o c w

module _ (env : Env) (m : FtCompMethod) (s : State) (opts_mapped : env.opts ≢ 0)
    (attr_mapped : env.cq_attr ≢ 0)
    (chosen : s.cell (env.opts + offsetof FtOptsField.comp_method) ≡ some (ft_comp_method_code m))
    (obj : ℕ) (has_obj : s.cell (addr_of env.cq_attr FiCqAttr.wait_obj) ≡ some obj) where
  -- For every completion method, `ft_cq_set_wait_attr` writes the wait object that the C function
  -- writes, and the wait set for FT_COMP_WAITSET only. Except for FT_COMP_SPIN it sets the condition
  -- to FI_CQ_COND_THRESHOLD. The fields of the queue's attributes must be mapped.
  pub ft_cq_set_wait_attr-Written :
      (cond set : ℕ)
      → s.cell (addr_of env.cq_attr FiCqAttr.wait_cond) ≡ some cond
      → s.cell (addr_of env.cq_attr FiCqAttr.wait_set) ≡ some set
      → (t : State) × (ft_cq_set_wait_attr env s ≡ some (tt, t))
        × (t.cell (addr_of env.cq_attr FiCqAttr.wait_obj)
            ≡ some (fi_wait_obj_code (documented_obj m)))
        × (t.cell (addr_of env.cq_attr FiCqAttr.wait_cond) ≡ some (cond_after m cond))
        × (t.cell (addr_of env.cq_attr FiCqAttr.wait_set) ≡ some (set_after m env.waitset set))
  unfolding ft_cq_set_wait_attr
  ft_cq_set_wait_attr-Written cond set has_cond has_set =
      let (t, run, o, c, w) =
        cq_wait_case_lem env.cq_attr env.waitset m s obj cond set attr_mapped has_obj has_cond
          has_set in
      (
        t,
        >>=-some (load env.opts (offsetof FtOptsField.comp_method)) _ (
              load-some env.opts (offsetof FtOptsField.comp_method) (ft_comp_method_code m) s
                opts_mapped chosen)
            ∙ run,
        o,
        c,
        w,
      )

  -- For every completion method, `ft_cntr_set_wait_attr` writes the wait object that the C function
  -- writes, but into the attributes of the queue: nothing else in memory changes, and if the wait
  -- object of the counter's attributes lies elsewhere, it stays as it is.
  pub ft_cntr_set_wait_attr-Written :
      (t : State) × (ft_cntr_set_wait_attr env s ≡ some (tt, t))
      × (t.cell (addr_of env.cq_attr FiCqAttr.wait_obj)
          ≡ some (fi_wait_obj_code (documented_obj m)))
      × ((q : ℕ) → q ≢ addr_of env.cq_attr FiCqAttr.wait_obj → t.cell q ≡ s.cell q)
      × (addr_of env.cntr_attr FiCntrAttr.wait_obj ≢ addr_of env.cq_attr FiCqAttr.wait_obj
          → t.cell (addr_of env.cntr_attr FiCntrAttr.wait_obj)
            ≡ s.cell (addr_of env.cntr_attr FiCntrAttr.wait_obj))
  unfolding ft_cntr_set_wait_attr
  ft_cntr_set_wait_attr-Written = (
    record s {
      cell =
          update s.cell (addr_of env.cq_attr FiCqAttr.wait_obj)
            (fi_wait_obj_code (documented_obj m));
    },
    >>=-some (load env.opts (offsetof FtOptsField.comp_method)) _ (
          load-some env.opts (offsetof FtOptsField.comp_method) (ft_comp_method_code m) s
            opts_mapped chosen)
        ∙ cntr_wait_case_lem env.cq_attr m s
        ∙ store-some _ _ obj s (omega arith) has_obj,
    ground arith,
    λ q other. ground arith,
    λ other. ground arith,
  )
