-- ===== src/Cm/Dispatch.antt =====
-- The inline functions of include/fi_cm.h call the method of their name.
use xlibfabric.Base.{ℕ, ◌≡◌, Option, [], ◌∷◌}
use xlibfabric.Machine.{Host, State, Method}
use xlibfabric.Machine.Dispatch.{Represents, perform, vcall-perform}
use xlibfabric.Endpoint.Layout.{FidEp, FidPep, fid_ep_layout, fid_pep_layout}
use xlibfabric.Cm.Layout.{FiOpsCm, fi_ops_cm_layout}
use xlibfabric.Cm.{fi_getpeer, fi_connect, fi_accept, fi_shutdown, fi_listen, fi_reject}

module _ {host : Host} {s : State} {ep : ℕ} {methods : FiOpsCm → Option Method}
    (r : Represents host s ep FidEp.cm methods) where
  -- On an endpoint whose `cm` table represents abstract methods, getting the peer, connecting,
  -- accepting and shutting down are the methods `getpeer`, `connect`, `accept` and `shutdown`.
  pub ep_cm-perform :
      (addr addrlen param paramlen flags : ℕ)
      → (fi_getpeer host ep addr addrlen s
          ≡ perform (methods FiOpsCm.getpeer) (ep ∷ addr ∷ addrlen ∷ []) s)
        × (fi_connect host ep addr param paramlen s
            ≡ perform (methods FiOpsCm.connect) (ep ∷ addr ∷ param ∷ paramlen ∷ []) s)
        × (fi_accept host ep param paramlen s
            ≡ perform (methods FiOpsCm.accept) (ep ∷ param ∷ paramlen ∷ []) s)
        × (fi_shutdown host ep flags s ≡ perform (methods FiOpsCm.shutdown) (ep ∷ flags ∷ []) s)
  unfolding fi_getpeer fi_connect fi_accept fi_shutdown
  ep_cm-perform addr addrlen param paramlen flags = (
    vcall-perform r FiOpsCm.getpeer _,
    vcall-perform r FiOpsCm.connect _,
    vcall-perform r FiOpsCm.accept _,
    vcall-perform r FiOpsCm.shutdown _,
  )

module _ {host : Host} {s : State} {pep : ℕ} {methods : FiOpsCm → Option Method}
    (r : Represents host s pep FidPep.cm methods) where
  -- On a passive endpoint whose `cm` table represents abstract methods, listening and
  -- rejecting are the methods `listen` and `reject`.
  pub pep_cm-perform :
      (handle param paramlen : ℕ)
      → (fi_listen host pep s ≡ perform (methods FiOpsCm.listen) (pep ∷ []) s)
        × (fi_reject host pep handle param paramlen s
            ≡ perform (methods FiOpsCm.reject) (pep ∷ handle ∷ param ∷ paramlen ∷ []) s)
  unfolding fi_listen fi_reject
  pep_cm-perform handle param paramlen =
      (vcall-perform r FiOpsCm.listen _, vcall-perform r FiOpsCm.reject _)
