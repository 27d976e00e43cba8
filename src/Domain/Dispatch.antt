-- ===== src/Domain/Dispatch.antt =====
-- The inline functions of include/fi_domain.h call the method of their name.
use xlibfabric.Base.{ℕ, ◌≡◌, Option, [], ◌∷◌}
use xlibfabric.Machine.{Host, State, Method, addr_of}
use xlibfabric.Machine.Dispatch.{Represents, perform, vcall-perform}
use xlibfabric.Fabric.Layout.{FidFabric, FiOpsFabric, fid_fabric_layout, fi_ops_fabric_layout}
use xlibfabric.Domain.Layout.{
  FidDomain, FiOpsDomain, FiOpsMr, FidAv, FiOpsAv, fid_domain_layout, fi_ops_domain_layout,
  fi_ops_mr_layout, fid_av_layout, fi_ops_av_layout,
}
use xlibfabric.Domain.{
  fi_domain, fi_wait_open, fi_cq_open, fi_cntr_open, fi_poll_open, fi_av_open, fi_mr_reg,
  fi_mr_regv, fi_mr_regattr, fi_av_insert, fi_av_insertsvc, fi_av_insertsym, fi_av_remove,
  fi_av_lookup, fi_av_straddr,
}

module _ {host : Host} {s : State} {fabric : ℕ} {methods : FiOpsFabric → Option Method}
    (r : Represents host s fabric FidFabric.ops methods) where
  -- On a fabric whose table represents abstract methods, opening a domain and a wait set are
  -- its methods `domain` and `wait_open`.
  pub fabric_ops-perform :
      (info domain context attr waitset : ℕ)
      → (fi_domain host fabric info domain context s
          ≡ perform (methods FiOpsFabric.domain) (fabric ∷ info ∷ domain ∷ context ∷ []) s)
        × (fi_wait_open host fabric attr waitset s
            ≡ perform (methods FiOpsFabric.wait_open) (fabric ∷ attr ∷ waitset ∷ []) s)
  unfolding fi_domain fi_wait_open
  fabric_ops-perform info domain context attr waitset =
      (vcall-perform r FiOpsFabric.domain _, vcall-perform r FiOpsFabric.wait_open _)

module _ {host : Host} {s : State} {domain : ℕ} {methods : FiOpsDomain → Option Method}
    (r : Represents host s domain FidDomain.ops methods) where
  -- On a domain whose table represents abstract methods, opening a completion queue, a
  -- counter, a poll set and an address vector are the methods of those names.
  pub domain_ops-perform :
      (attr cq context cntr pollset av : ℕ)
      → (fi_cq_open host domain attr cq context s
          ≡ perform (methods FiOpsDomain.cq_open) (domain ∷ attr ∷ cq ∷ context ∷ []) s)
        × (fi_cntr_open host domain attr cntr context s
            ≡ perform (methods FiOpsDomain.cntr_open) (domain ∷ attr ∷ cntr ∷ context ∷ []) s)
        × (fi_poll_open host domain attr pollset s
            ≡ perform (methods FiOpsDomain.poll_open) (domain ∷ attr ∷ pollset ∷ []) s)
        × (fi_av_open host domain attr av context s
            ≡ perform (methods FiOpsDomain.av_open) (domain ∷ attr ∷ av ∷ context ∷ []) s)
  unfolding fi_cq_open fi_cntr_open fi_poll_open fi_av_open
  domain_ops-perform attr cq context cntr pollset av = (
    vcall-perform r FiOpsDomain.cq_open _,
    vcall-perform r FiOpsDomain.cntr_open _,
    vcall-perform r FiOpsDomain.poll_open _,
    vcall-perform r FiOpsDomain.av_open _,
  )

module _ {host : Host} {s : State} {domain : ℕ} {methods : FiOpsMr → Option Method}
    (r : Represents host s domain FidDomain.mr methods) where
  -- On a domain whose registration table represents abstract methods, the three registration
  -- calls are the methods `reg`, `regv` and `regattr`, each called on the domain's `fid`.
  pub mr_ops-perform :
      (buf len acs offset requested_key flags mr context iov count attr : ℕ)
      → (fi_mr_reg host domain buf len acs offset requested_key flags mr context s
          ≡ perform
              (methods FiOpsMr.reg)
              ((addr_of domain FidDomain.fid)
                ∷ buf
                ∷ len
                ∷ acs
                ∷ offset
                ∷ requested_key
                ∷ flags
                ∷ mr
                ∷ context
                ∷ [])
              s)
        × (fi_mr_regv host domain iov count acs offset requested_key flags mr context s
            ≡ perform
                (methods FiOpsMr.regv)
                ((addr_of domain FidDomain.fid)
                  ∷ iov
                  ∷ count
                  ∷ acs
                  ∷ offset
                  ∷ requested_key
                  ∷ flags
                  ∷ mr
                  ∷ context
                  ∷ [])
                s)
        × (fi_mr_regattr host domain attr flags mr s
            ≡ perform
                (methods FiOpsMr.regattr)
                ((addr_of domain FidDomain.fid) ∷ attr ∷ flags ∷ mr ∷ [])
                s)
  unfolding fi_mr_reg fi_mr_regv fi_mr_regattr
  mr_ops-perform buf len acs offset requested_key flags mr context iov count attr = (
    vcall-perform r FiOpsMr.reg _,
    vcall-perform r FiOpsMr.regv _,
    vcall-perform r FiOpsMr.regattr _,
  )

module _ {host : Host} {s : State} {av : ℕ} {methods : FiOpsAv → Option Method}
    (r : Represents host s av FidAv.ops methods) where
  -- On an address vector whose table represents abstract methods, the six calls are the
  -- methods `insert`, `insertsvc`, `insertsym`, `remove`, `lookup` and `straddr`, with the
  -- arguments in order.
  pub av_ops-perform :
      (addr count fi_addr flags context node service nodecnt svccnt addrlen buf len : ℕ)
      → (fi_av_insert host av addr count fi_addr flags context s
          ≡ perform (methods FiOpsAv.insert) (av ∷ addr ∷ count ∷ fi_addr ∷ flags ∷ context ∷ []) s)
        × (fi_av_insertsvc host av node service fi_addr flags context s
            ≡ perform
                (methods FiOpsAv.insertsvc)
                (av ∷ node ∷ service ∷ fi_addr ∷ flags ∷ context ∷ [])
                s)
        × (fi_av_insertsym host av node nodecnt service svccnt fi_addr flags context s
            ≡ perform
                (methods FiOpsAv.insertsym)
                (av ∷ node ∷ nodecnt ∷ service ∷ svccnt ∷ fi_addr ∷ flags ∷ context ∷ [])
                s)
        × (fi_av_remove host av fi_addr count flags s
            ≡ perform (methods FiOpsAv.remove) (av ∷ fi_addr ∷ count ∷ flags ∷ []) s)
        × (fi_av_lookup host av fi_addr addr addrlen s
            ≡ perform (methods FiOpsAv.lookup) (av ∷ fi_addr ∷ addr ∷ addrlen ∷ []) s)
        × (fi_av_straddr host av addr buf len s
            ≡ perform (methods FiOpsAv.straddr) (av ∷ addr ∷ buf ∷ len ∷ []) s)
  unfolding fi_av_insert fi_av_insertsvc fi_av_insertsym fi_av_remove fi_av_lookup fi_av_straddr
  av_ops-perform addr count fi_addr flags context node service nodecnt svccnt addrlen buf len = (
    vcall-perform r FiOpsAv.insert _,
    vcall-perform r FiOpsAv.insertsvc _,
    vcall-perform r FiOpsAv.insertsym _,
    vcall-perform r FiOpsAv.remove _,
    vcall-perform r FiOpsAv.lookup _,
    vcall-perform r FiOpsAv.straddr _,
  )
