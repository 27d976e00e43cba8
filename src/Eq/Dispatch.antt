-- ===== src/Eq/Dispatch.antt =====
-- The inline functions of include/fi_eq.h call the method of their name.
use xlibfabric.Base.{ℕ, ◌≡◌, Option, [], ◌∷◌}
use xlibfabric.Machine.{Host, State, Method}
use xlibfabric.Machine.Dispatch.{Represents, perform, vcall-perform}
use xlibfabric.Eq.Layout.{
  FidPoll, FiOpsPoll, FidEq, FiOpsEq, FidCq, FiOpsCq, FidCntr, FiOpsCntr, fid_poll_layout,
  fi_ops_poll_layout, fid_eq_layout, fi_ops_eq_layout, fid_cq_layout, fi_ops_cq_layout,
  fid_cntr_layout, fi_ops_cntr_layout,
}
use xlibfabric.Eq.{
  fi_poll, fi_poll_add, fi_poll_del, fi_eq_read, fi_eq_readerr, fi_eq_write, fi_eq_sread,
  fi_eq_strerror, fi_cq_read, fi_cq_readfrom, fi_cq_readerr, fi_cq_sread, fi_cq_sreadfrom,
  fi_cq_signal, fi_cq_strerror, fi_cntr_read, fi_cntr_readerr, fi_cntr_add, fi_cntr_set,
  fi_cntr_wait,
}

module _ {host : Host} {s : State} {pollset : ℕ} {methods : FiOpsPoll → Option Method}
    (r : Represents host s pollset FidPoll.ops methods) where
  -- On a poll set whose table represents abstract methods, polling, adding and deleting are
  -- the methods of those names.
  pub poll-perform :
      (context count event_fid flags : ℕ)
      → (fi_poll host pollset context count s
          ≡ perform (methods FiOpsPoll.poll) (pollset ∷ context ∷ count ∷ []) s)
        × (fi_poll_add host pollset event_fid flags s
            ≡ perform (methods FiOpsPoll.poll_add) (pollset ∷ event_fid ∷ flags ∷ []) s)
        × (fi_poll_del host pollset event_fid flags s
            ≡ perform (methods FiOpsPoll.poll_del) (pollset ∷ event_fid ∷ flags ∷ []) s)
  unfolding fi_poll fi_poll_add fi_poll_del
  poll-perform context count event_fid flags = (
    vcall-perform r FiOpsPoll.poll _,
    vcall-perform r FiOpsPoll.poll_add _,
    vcall-perform r FiOpsPoll.poll_del _,
  )

module _ {host : Host} {s : State} {eq : ℕ} {methods : FiOpsEq → Option Method}
    (r : Represents host s eq FidEq.ops methods) where
  -- On an event queue whose table represents abstract methods, the five calls are the five
  -- methods of the table.
  pub eq-perform :
      (event buf len flags timeout prov_errno err_data : ℕ)
      → (fi_eq_read host eq event buf len flags s
          ≡ perform (methods FiOpsEq.read) (eq ∷ event ∷ buf ∷ len ∷ flags ∷ []) s)
        × (fi_eq_readerr host eq buf flags s
            ≡ perform (methods FiOpsEq.readerr) (eq ∷ buf ∷ flags ∷ []) s)
        × (fi_eq_write host eq event buf len flags s
            ≡ perform (methods FiOpsEq.write) (eq ∷ event ∷ buf ∷ len ∷ flags ∷ []) s)
        × (fi_eq_sread host eq event buf len timeout flags s
            ≡ perform (methods FiOpsEq.sread) (eq ∷ event ∷ buf ∷ len ∷ timeout ∷ flags ∷ []) s)
        × (fi_eq_strerror host eq prov_errno err_data buf len s
            ≡ perform (methods FiOpsEq.strerror) (eq ∷ prov_errno ∷ err_data ∷ buf ∷ len ∷ []) s)
  unfolding fi_eq_read fi_eq_readerr fi_eq_write fi_eq_sread fi_eq_strerror
  eq-perform event buf len flags timeout prov_errno err_data = (
    vcall-perform r FiOpsEq.read _,
    vcall-perform r FiOpsEq.readerr _,
    vcall-perform r FiOpsEq.write _,
    vcall-perform r FiOpsEq.sread _,
    vcall-perform r FiOpsEq.strerror _,
  )

module _ {host : Host} {s : State} {cq : ℕ} {methods : FiOpsCq → Option Method}
    (r : Represents host s cq FidCq.ops methods) where
  -- On a completion queue whose table represents abstract methods, the seven calls are the
  -- seven methods of the table: no blocking read stands for a non-blocking one, and none for
  -- the error read.
  pub cq-perform :
      (buf count src_addr flags cond timeout prov_errno err_data len : ℕ)
      → (fi_cq_read host cq buf count s ≡ perform (methods FiOpsCq.read) (cq ∷ buf ∷ count ∷ []) s)
        × (fi_cq_readfrom host cq buf count src_addr s
            ≡ perform (methods FiOpsCq.readfrom) (cq ∷ buf ∷ count ∷ src_addr ∷ []) s)
        × (fi_cq_readerr host cq buf flags s
            ≡ perform (methods FiOpsCq.readerr) (cq ∷ buf ∷ flags ∷ []) s)
        × (fi_cq_sread host cq buf count cond timeout s
            ≡ perform (methods FiOpsCq.sread) (cq ∷ buf ∷ count ∷ cond ∷ timeout ∷ []) s)
        × (fi_cq_sreadfrom host cq buf count src_addr cond timeout s
            ≡ perform
                (methods FiOpsCq.sreadfrom)
                (cq ∷ buf ∷ count ∷ src_addr ∷ cond ∷ timeout ∷ [])
                s)
        × (fi_cq_signal host cq s ≡ perform (methods FiOpsCq.signal) (cq ∷ []) s)
        × (fi_cq_strerror host cq prov_errno err_data buf len s
            ≡ perform (methods FiOpsCq.strerror) (cq ∷ prov_errno ∷ err_data ∷ buf ∷ len ∷ []) s)
  unfolding fi_cq_read fi_cq_readfrom fi_cq_readerr fi_cq_sread fi_cq_sreadfrom fi_cq_signal
      fi_cq_strerror
  cq-perform buf count src_addr flags cond timeout prov_errno err_data len = (
    vcall-perform r FiOpsCq.read _,
    vcall-perform r FiOpsCq.readfrom _,
    vcall-perform r FiOpsCq.readerr _,
    vcall-perform r FiOpsCq.sread _,
    vcall-perform r FiOpsCq.sreadfrom _,
    vcall-perform r FiOpsCq.signal _,
    vcall-perform r FiOpsCq.strerror _,
  )

module _ {host : Host} {s : State} {cntr : ℕ} {methods : FiOpsCntr → Option Method}
    (r : Represents host s cntr FidCntr.ops methods) where
  -- On a counter whose table represents abstract methods, reading, reading the error count,
  -- adding, setting and waiting are the methods of those names.
  pub cntr-perform :
      (value threshold timeout : ℕ)
      → (fi_cntr_read host cntr s ≡ perform (methods FiOpsCntr.read) (cntr ∷ []) s)
        × (fi_cntr_readerr host cntr s ≡ perform (methods FiOpsCntr.readerr) (cntr ∷ []) s)
        × (fi_cntr_add host cntr value s ≡ perform (methods FiOpsCntr.add) (cntr ∷ value ∷ []) s)
        × (fi_cntr_set host cntr value s ≡ perform (methods FiOpsCntr.set) (cntr ∷ value ∷ []) s)
        × (fi_cntr_wait host cntr threshold timeout s
            ≡ perform (methods FiOpsCntr.wait) (cntr ∷ threshold ∷ timeout ∷ []) s)
  unfolding fi_cntr_read fi_cntr_readerr fi_cntr_add fi_cntr_set fi_cntr_wait
  cntr-perform value threshold timeout = (
    vcall-perform r FiOpsCntr.read _,
    vcall-perform r FiOpsCntr.readerr _,
    vcall-perform r FiOpsCntr.add _,
    vcall-perform r FiOpsCntr.set _,
    vcall-perform r FiOpsCntr.wait _,
  )
