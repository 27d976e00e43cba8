-- ===== src/Examples/Join.antt =====
-- A run of `fi_join_collective`.
use xlibfabric.Base.{ℕ, ◌/◌, ◌%◌, ◌^◌, ◌≡◌, [], ◌∷◌, arith, inl}
use xlibfabric.Machine.Locals.{finish}
use xlibfabric.Endpoint.Layout.{FidEp, fid_ep_layout}
use xlibfabric.Cm.Layout.{FiOpsCm, fi_ops_cm_layout}
use xlibfabric.Collective.{fi_join_collective}
use xlibfabric.Collective.Join.{answer, collective_addr, fi_join_collective-perform}
use xlibfabric.Examples.World.{demo_host, demo, offered, demo-Offers}

fi_join_collective-perform_example :
    (all : ℕ) × (all / 2 ^ 6 % 2 ≡ 1)
    × (all % 2 ^ 6 ≡ 5 % 2 ^ 6)
    × (all / 2 ^ 7 ≡ 5 / 2 ^ 7)
    × (fi_join_collective demo_host 16 70 80 5 90 0 demo
        ≡ finish demo (
            answer 38
              (offered 16 FidEp.cm FiOpsCm.join)
              (16 ∷ 99984 ∷ all ∷ 90 ∷ 0 ∷ [])
              (collective_addr demo.cell 99984 80 70)))
unfolding demo-Offers
fi_join_collective-perform_example =
    fi_join_collective-perform 70 80 5 90 0 (demo-Offers 16 FidEp.cm (omega arith))
      (inl (omega arith), λ k inside. inl (omega arith))
