-- ===== src/Fabric/Dispatch.antt =====
-- The inline functions of include/fabric.h call the method of their name.
use xlibfabric.Base.{ℕ, ◌≡◌, Option, [], ◌∷◌}
use xlibfabric.Machine.{Host, State, Method}
use xlibfabric.Machine.Dispatch.{Represents, perform, vcall-perform}
use xlibfabric.Fabric.Layout.{Fid, FiOps, fid_layout, fi_ops_layout}
use xlibfabric.Fabric.{fi_close, fi_control, fi_open_ops}

module _ {host : Host} {s : State} {fid : ℕ} {methods : FiOps → Option Method}
    (r : Represents host s fid Fid.ops methods) where
  -- On an object whose `fid.ops` table represents abstract methods, `fi_close`, `fi_control`
  -- and `fi_open_ops` are the methods `close`, `control` and `ops_open`, at the object and
  -- with the arguments in order; where the entry is null the call is undefined.
  pub fi_ops-perform :
      (command arg name flags ops context : ℕ)
      → (fi_close host fid s ≡ perform (methods FiOps.close) (fid ∷ []) s)
        × (fi_control host fid command arg s
            ≡ perform (methods FiOps.control) (fid ∷ command ∷ arg ∷ []) s)
        × (fi_open_ops host fid name flags ops context s
            ≡ perform (methods FiOps.ops_open) (fid ∷ name ∷ flags ∷ ops ∷ context ∷ []) s)
  unfolding fi_close fi_control fi_open_ops
  fi_ops-perform command arg name flags ops context = (
    vcall-perform r FiOps.close _,
    vcall-perform r FiOps.control _,
    vcall-perform r FiOps.ops_open _,
  )
