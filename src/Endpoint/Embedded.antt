-- ===== src/Endpoint/Embedded.antt =====
-- Calls that reach an object through the `struct fid` embedded in it, in include/fi_domain.h,
-- fi_endpoint.h and fi_cm.h: `&obj->fid` on the way in, `container_of` on the way back.
use xlibfabric.Base.{ℕ, ◌≡◌, Option, [], ◌∷◌}
use xlibfabric.Machine.{Host, State, Method, addr_of, container_of}
use xlibfabric.Machine.Dispatch.{Represents, perform, vcall-perform, container_of-addr_of}
use xlibfabric.Fabric.Layout.{Fid, FiOps, fid_layout, fi_ops_layout, command_code, enable}
use xlibfabric.Domain.Layout.{fid_domain_layout, fid_mr_layout, fid_av_layout}
use xlibfabric.Domain.{fi_domain_bind, fi_mr_bind, fi_av_bind, fi_mr_enable}
use xlibfabric.Endpoint.Layout.{
  FidEp, fid_ep_layout, FidPep, fid_pep_layout, fid_stx_layout, FiOpsEp, fi_ops_ep_layout,
}
use xlibfabric.Endpoint.{
  fi_ep_bind, fi_pep_bind, fi_scalable_ep_bind, fi_enable, fi_cancel, fi_setopt, fi_getopt,
}
use xlibfabric.Cm.Layout.{FiOpsCm, fi_ops_cm_layout}
use xlibfabric.Cm.{fi_setname, fi_getname}

module _ {host : Host} {s : State} (obj : ℕ) {methods : FiOps → Option Method}
    (r : Represents host s (addr_of obj FidEp.fid) Fid.ops methods) where
  -- All six bind calls are the method `bind` of the `struct fid` at the object's address, whatever
  -- the object is, and the two enable calls are its `control` with FI_ENABLE and a null argument.
  pub bind-perform :
      (bfid flags : ℕ)
      → (fi_domain_bind host obj bfid flags s
          ≡ perform (methods FiOps.bind) ((addr_of obj FidEp.fid) ∷ bfid ∷ flags ∷ []) s)
        × (fi_mr_bind host obj bfid flags s
            ≡ perform (methods FiOps.bind) ((addr_of obj FidEp.fid) ∷ bfid ∷ flags ∷ []) s)
        × (fi_av_bind host obj bfid flags s
            ≡ perform (methods FiOps.bind) ((addr_of obj FidEp.fid) ∷ bfid ∷ flags ∷ []) s)
        × (fi_ep_bind host obj bfid flags s
            ≡ perform (methods FiOps.bind) ((addr_of obj FidEp.fid) ∷ bfid ∷ flags ∷ []) s)
        × (fi_pep_bind host obj bfid flags s
            ≡ perform (methods FiOps.bind) ((addr_of obj FidEp.fid) ∷ bfid ∷ flags ∷ []) s)
        × (fi_scalable_ep_bind host obj bfid flags s
            ≡ perform (methods FiOps.bind) ((addr_of obj FidEp.fid) ∷ bfid ∷ flags ∷ []) s)
        × (fi_enable host obj s
            ≡ perform
                (methods FiOps.control)
                ((addr_of obj FidEp.fid) ∷ command_code enable ∷ 0 ∷ [])
                s)
        × (fi_mr_enable host obj s
            ≡ perform
                (methods FiOps.control)
                ((addr_of obj FidEp.fid) ∷ command_code enable ∷ 0 ∷ [])
                s)
  unfolding fi_domain_bind fi_mr_bind fi_av_bind fi_ep_bind fi_pep_bind fi_scalable_ep_bind
      fi_enable fi_mr_enable
  bind-perform bfid flags =
      let bind = vcall-perform r FiOps.bind in
      let control = vcall-perform r FiOps.control in
      (bind _, bind _, bind _, bind _, bind _, bind _, control _, control _)

-- A handle to the `struct fid` of an endpoint leads back to that endpoint: the five calls that
-- take a handle are methods of the endpoint's own tables, called on the handle.
pub fid_ep-perform :
    {host : Host} {s : State} (ep : ℕ) {options : FiOpsEp → Option Method}
    {names : FiOpsCm → Option Method} (context level optname optval optlen addr addrlen : ℕ)
    → Represents host s ep FidEp.ops options
    → Represents host s ep FidEp.cm names
    → (fi_cancel host (addr_of ep FidEp.fid) context s
        ≡ perform (options FiOpsEp.cancel) ((addr_of ep FidEp.fid) ∷ context ∷ []) s)
      × (fi_setopt host (addr_of ep FidEp.fid) level optname optval optlen s
          ≡ perform
              (options FiOpsEp.setopt)
              ((addr_of ep FidEp.fid) ∷ level ∷ optname ∷ optval ∷ optlen ∷ [])
              s)
      × (fi_getopt host (addr_of ep FidEp.fid) level optname optval optlen s
          ≡ perform
              (options FiOpsEp.getopt)
              ((addr_of ep FidEp.fid) ∷ level ∷ optname ∷ optval ∷ optlen ∷ [])
              s)
      × (fi_setname host (addr_of ep FidEp.fid) addr addrlen s
          ≡ perform (names FiOpsCm.setname) ((addr_of ep FidEp.fid) ∷ addr ∷ addrlen ∷ []) s)
      × (fi_getname host (addr_of ep FidEp.fid) addr addrlen s
          ≡ perform (names FiOpsCm.getname) ((addr_of ep FidEp.fid) ∷ addr ∷ addrlen ∷ []) s)
unfolding fi_cancel fi_setopt fi_getopt fi_setname fi_getname
fid_ep-perform {host} {s} ep {options} {names} context level optname optval optlen addr addrlen r
      q =
    let r' : Represents host s (container_of (addr_of ep FidEp.fid) FidEp.fid) FidEp.ops options =
      rw (container_of-addr_of ep FidEp.fid) r in
    let q' : Represents host s (container_of (addr_of ep FidEp.fid) FidEp.fid) FidEp.cm names =
      rw (container_of-addr_of ep FidEp.fid) q in
    (
      vcall-perform r' FiOpsEp.cancel _,
      vcall-perform r' FiOpsEp.setopt _,
      vcall-perform r' FiOpsEp.getopt _,
      vcall-perform q' FiOpsCm.setname _,
      vcall-perform q' FiOpsCm.getname _,
    )

-- The two tables of a passive endpoint lie where an endpoint has its own.
pep_ops :
    {host : Host} {s : State} {pep : ℕ} {options : FiOpsEp → Option Method}
    → Represents host s pep FidPep.ops options
    → Represents host s pep FidEp.ops options
pep_ops r = record {
  ops = r.ops;
  entry = r.entry;
  obj_mapped = r.obj_mapped;
  ops_mapped = r.ops_mapped;
  points = r.points;
  holds = r.holds;
  binds = r.binds;
}

pep_cm :
    {host : Host} {s : State} {pep : ℕ} {names : FiOpsCm → Option Method}
    → Represents host s pep FidPep.cm names
    → Represents host s pep FidEp.cm names
pep_cm r = record {
  ops = r.ops;
  entry = r.entry;
  obj_mapped = r.obj_mapped;
  ops_mapped = r.ops_mapped;
  points = r.points;
  holds = r.holds;
  binds = r.binds;
}

-- A passive endpoint's handle goes through the same code, which takes the object for a
-- `struct fid_ep`: the two structs agree as far as the code reads, so the calls are the methods of
-- the passive endpoint's own tables.
pub fid_pep-perform :
    {host : Host} {s : State} (pep : ℕ) {options : FiOpsEp → Option Method}
    {names : FiOpsCm → Option Method} (level optname optval optlen addr addrlen : ℕ)
    → Represents host s pep FidPep.ops options
    → Represents host s pep FidPep.cm names
    → (fi_setopt host (addr_of pep FidPep.fid) level optname optval optlen s
        ≡ perform
            (options FiOpsEp.setopt)
            ((addr_of pep FidPep.fid) ∷ level ∷ optname ∷ optval ∷ optlen ∷ [])
            s)
      × (fi_getopt host (addr_of pep FidPep.fid) level optname optval optlen s
          ≡ perform
              (options FiOpsEp.getopt)
              ((addr_of pep FidPep.fid) ∷ level ∷ optname ∷ optval ∷ optlen ∷ [])
              s)
      × (fi_setname host (addr_of pep FidPep.fid) addr addrlen s
          ≡ perform (names FiOpsCm.setname) ((addr_of pep FidPep.fid) ∷ addr ∷ addrlen ∷ []) s)
      × (fi_getname host (addr_of pep FidPep.fid) addr addrlen s
          ≡ perform (names FiOpsCm.getname) ((addr_of pep FidPep.fid) ∷ addr ∷ addrlen ∷ []) s)
unfolding fi_setopt fi_getopt fi_setname fi_getname
fid_pep-perform {host} {s} pep {options} {names} level optname optval optlen addr addrlen r q =
    let (_, set, get, set_name, get_name) =
      fid_ep-perform pep {options = options} {names = names} 0 level optname optval optlen addr
        addrlen (pep_ops r) (pep_cm q) in
    (set, get, set_name, get_name)
