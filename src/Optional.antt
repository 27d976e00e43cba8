-- ===== src/Optional.antt =====
-- The seven calls behind `FI_CHECK_OP`, in include/fabric.h, fi_cm.h, fi_eq.h, fi_atomic.h and
-- fi_collective.h.
use xlibfabric.Base.{ℕ, ◌≡◌, Option, [], ◌∷◌}
use xlibfabric.Machine.{Host, State, Method}
use xlibfabric.Fabric.Optional.{Offers, perform_or, checked_vcall-perform}
use xlibfabric.Fabric.Layout.{Fid, FiOps, fid_layout, fi_ops_layout}
use xlibfabric.Fabric.{fi_set_ops}
use xlibfabric.Domain.Layout.{
  FidDomain, FiOpsDomain, FidAv, FiOpsAv, fid_domain_layout, fi_ops_domain_layout, fid_av_layout,
  fi_ops_av_layout,
}
use xlibfabric.Endpoint.Layout.{FidEp, fid_ep_layout}
use xlibfabric.Cm.Layout.{FiOpsCm, fi_ops_cm_layout}
use xlibfabric.Cm.{fi_join}
use xlibfabric.Eq.Layout.{FidCntr, FiOpsCntr, fid_cntr_layout, fi_ops_cntr_layout}
use xlibfabric.Eq.{fi_cntr_adderr, fi_cntr_seterr}
use xlibfabric.Atomic.{fi_query_atomic}
use xlibfabric.Collective.{fi_av_set, fi_query_collective}

module _ {host : Host} {s : State} {fid : ℕ} {methods : FiOps → Option Method}
    (r : Offers host s fid Fid.ops methods) where
  -- On an object whose operations may be null or end early, `fi_set_ops` is the method `ops_set`,
  -- or -FI_ENOSYS with the memory untouched if there is none.
  pub fi_set_ops-perform :
      (name flags ops context : ℕ)
      → fi_set_ops host fid name flags ops context s
        ≡ perform_or host.enosys (methods FiOps.ops_set) (fid ∷ name ∷ flags ∷ ops ∷ context ∷ []) s
  unfolding fi_set_ops
  fi_set_ops-perform name flags ops context = checked_vcall-perform r FiOps.ops_set _

module _ {host : Host} {s : State} {domain : ℕ} {methods : FiOpsDomain → Option Method}
    (r : Offers host s domain FidDomain.ops methods) where
  -- On a domain whose operations may be null or end early, the two queries are the methods
  -- `query_atomic` and `query_collective`, or -FI_ENOSYS with the memory untouched if there is none.
  pub query-perform :
      (datatype op coll attr flags : ℕ)
      → (fi_query_atomic host domain datatype op attr flags s
          ≡ perform_or host.enosys
              (methods FiOpsDomain.query_atomic)
              (domain ∷ datatype ∷ op ∷ attr ∷ flags ∷ [])
              s)
        × (fi_query_collective host domain coll attr flags s
            ≡ perform_or host.enosys
                (methods FiOpsDomain.query_collective)
                (domain ∷ coll ∷ attr ∷ flags ∷ [])
                s)
  unfolding fi_query_atomic fi_query_collective
  query-perform datatype op coll attr flags = (
    checked_vcall-perform r FiOpsDomain.query_atomic _,
    checked_vcall-perform r FiOpsDomain.query_collective _,
  )

module _ {host : Host} {s : State} {cntr : ℕ} {methods : FiOpsCntr → Option Method}
    (r : Offers host s cntr FidCntr.ops methods) where
  -- On a counter whose operations may be null or end early, adding to and setting the error count
  -- are the methods `adderr` and `seterr`, or -FI_ENOSYS with the memory untouched if there is none.
  pub cntr_err-perform :
      (value : ℕ)
      → (fi_cntr_adderr host cntr value s
          ≡ perform_or host.enosys (methods FiOpsCntr.adderr) (cntr ∷ value ∷ []) s)
        × (fi_cntr_seterr host cntr value s
            ≡ perform_or host.enosys (methods FiOpsCntr.seterr) (cntr ∷ value ∷ []) s)
  unfolding fi_cntr_adderr fi_cntr_seterr
  cntr_err-perform value =
      (checked_vcall-perform r FiOpsCntr.adderr _, checked_vcall-perform r FiOpsCntr.seterr _)

module _ {host : Host} {s : State} {ep : ℕ} {methods : FiOpsCm → Option Method}
    (r : Offers host s ep FidEp.cm methods) where
  -- On an endpoint whose connection operations may be null or end early, `fi_join` is the method
  -- `join`, or -FI_ENOSYS with the memory untouched if there is none.
  pub fi_join-perform :
      (addr flags mc context : ℕ)
      → fi_join host ep addr flags mc context s
        ≡ perform_or host.enosys (methods FiOpsCm.join) (ep ∷ addr ∷ flags ∷ mc ∷ context ∷ []) s
  unfolding fi_join
  fi_join-perform addr flags mc context = checked_vcall-perform r FiOpsCm.join _

module _ {host : Host} {s : State} {av : ℕ} {methods : FiOpsAv → Option Method}
    (r : Offers host s av FidAv.ops methods) where
  -- On an address vector whose operations may be null or end early, `fi_av_set` is the method
  -- `av_set`, or -FI_ENOSYS with the memory untouched if there is none.
  pub fi_av_set-perform :
      (attr set context : ℕ)
      → fi_av_set host av attr set context s
        ≡ perform_or host.enosys (methods FiOpsAv.av_set) (av ∷ attr ∷ set ∷ context ∷ []) s
  unfolding fi_av_set
  fi_av_set-perform attr set context = checked_vcall-perform r FiOpsAv.av_set _
