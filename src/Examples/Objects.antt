-- ===== src/Examples/Objects.antt =====
-- Runs of the calls on embedded objects and of the optional operations.
use xlibfabric.Base.{arith, ◌≡◌, [], ◌∷◌}
use xlibfabric.Machine.Dispatch.{perform}
use xlibfabric.Fabric.Layout.{Fid, FiOps, fid_layout, fi_ops_layout, command_code, enable}
use xlibfabric.Domain.Layout.{
  fid_domain_layout, fi_ops_domain_layout, fid_av_layout, fi_ops_av_layout,
}
use xlibfabric.Domain.{fi_domain_bind, fi_mr_bind, fi_mr_enable, fi_av_bind}
use xlibfabric.Endpoint.Layout.{FidEp, FiOpsEp, fid_ep_layout, fid_pep_layout, fi_ops_ep_layout}
use xlibfabric.Endpoint.{
  fi_ep_bind, fi_pep_bind, fi_scalable_ep_bind, fi_enable, fi_cancel, fi_setopt, fi_getopt,
}
use xlibfabric.Cm.Layout.{FiOpsCm, fi_ops_cm_layout}
use xlibfabric.Cm.{fi_setname, fi_getname}
use xlibfabric.Eq.Layout.{fid_cntr_layout, fi_ops_cntr_layout}
use xlibfabric.Endpoint.Embedded.{bind-perform, fid_ep-perform}
use xlibfabric.Examples.World.{demo_host, demo, provider, demo-Represents}

bind-perform_example :
    (fi_domain_bind demo_host 16 1 2 demo
      ≡ perform (provider 16 Fid.ops FiOps.bind) (16 ∷ 1 ∷ 2 ∷ []) demo)
    × (fi_mr_bind demo_host 16 1 2 demo
        ≡ perform (provider 16 Fid.ops FiOps.bind) (16 ∷ 1 ∷ 2 ∷ []) demo)
    × (fi_av_bind demo_host 16 1 2 demo
        ≡ perform (provider 16 Fid.ops FiOps.bind) (16 ∷ 1 ∷ 2 ∷ []) demo)
    × (fi_ep_bind demo_host 16 1 2 demo
        ≡ perform (provider 16 Fid.ops FiOps.bind) (16 ∷ 1 ∷ 2 ∷ []) demo)
    × (fi_pep_bind demo_host 16 1 2 demo
        ≡ perform (provider 16 Fid.ops FiOps.bind) (16 ∷ 1 ∷ 2 ∷ []) demo)
    × (fi_scalable_ep_bind demo_host 16 1 2 demo
        ≡ perform (provider 16 Fid.ops FiOps.bind) (16 ∷ 1 ∷ 2 ∷ []) demo)
    × (fi_enable demo_host 16 demo
        ≡ perform (provider 16 Fid.ops FiOps.control) (16 ∷ command_code enable ∷ 0 ∷ []) demo)
    × (fi_mr_enable demo_host 16 demo
        ≡ perform (provider 16 Fid.ops FiOps.control) (16 ∷ command_code enable ∷ 0 ∷ []) demo)
bind-perform_example = bind-perform 16 (demo-Represents 16 Fid.ops (omega arith)) 1 2

fid_ep-perform_example :
    (fi_cancel demo_host 16 1 demo
      ≡ perform (provider 16 FidEp.ops FiOpsEp.cancel) (16 ∷ 1 ∷ []) demo)
    × (fi_setopt demo_host 16 2 3 4 5 demo
        ≡ perform (provider 16 FidEp.ops FiOpsEp.setopt) (16 ∷ 2 ∷ 3 ∷ 4 ∷ 5 ∷ []) demo)
    × (fi_getopt demo_host 16 2 3 4 5 demo
        ≡ perform (provider 16 FidEp.ops FiOpsEp.getopt) (16 ∷ 2 ∷ 3 ∷ 4 ∷ 5 ∷ []) demo)
    × (fi_setname demo_host 16 6 7 demo
        ≡ perform (provider 16 FidEp.cm FiOpsCm.setname) (16 ∷ 6 ∷ 7 ∷ []) demo)
    × (fi_getname demo_host 16 6 7 demo
        ≡ perform (provider 16 FidEp.cm FiOpsCm.getname) (16 ∷ 6 ∷ 7 ∷ []) demo)
fid_ep-perform_example =
    fid_ep-perform 16 1 2 3 4 5 6 7 (demo-Represents 16 FidEp.ops (omega arith))
      (demo-Represents 16 FidEp.cm (omega arith))
