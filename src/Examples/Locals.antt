-- ===== src/Examples/Locals.antt =====
-- Runs of the calls that pass a local variable.
use xlibfabric.Base.{
  arith, ◌≡◌, ◌≢◌, ◌≤◌, ◌<◌, ◌+◌, ◌*◌, refl, inl, [], ◌∷◌, some, none, Option, pos, ℤ, ℕ,
}
use xlibfabric.Machine.{Host, Cells, Method, update}
use xlibfabric.Machine.Locals.{Apart, Agree, apply, finish}
use xlibfabric.Fabric.Layout.{Fid, FiOps, fid_layout, fi_ops_layout, command_code, alias, refresh}
use xlibfabric.Domain.Layout.{fid_mr_layout, fid_domain_layout}
use xlibfabric.Domain.{fi_mr_refresh}
use xlibfabric.Domain.Refresh.{fi_mr_refresh-perform}
use xlibfabric.Endpoint.Layout.{fid_ep_layout}
use xlibfabric.Endpoint.{fi_ep_alias}
use xlibfabric.Endpoint.Alias.{alias_struct, IsAliasControl, fi_ep_alias-fails, fi_ep_alias-stores}
use xlibfabric.Examples.World.{bump, demo_host, demo, provider, keeps}

fi_mr_refresh-perform_example :
    (c : Cells) × (c 99912 ≡ some 3)
    × (c 99920 ≡ some 1)
    × (c 99928 ≡ some 2)
    × ((i : ℕ) → 3 ≤ i → i < 11 → c (99912 + 8 * i) ≡ some 0)
    × Agree 99912 88 demo.cell c
    × (fi_mr_refresh demo_host 16 1 2 3 demo
        ≡ finish demo
            (apply (provider 16 Fid.ops FiOps.control) (16 ∷ command_code refresh ∷ 99912 ∷ []) c))
fi_mr_refresh-perform_example =
    fi_mr_refresh-perform 16 (keeps demo_host 88 16 (omega arith) (omega arith) (omega arith)) 1 2 3

-- A provider whose `control` fails with the number of its entry.
fi_ep_alias-fails_example :
    fi_ep_alias demo_host 16 40 5 demo
    ≡ finish demo (
        apply
          (provider 16 Fid.ops FiOps.control)
          (16 ∷ command_code alias ∷ 99976 ∷ [])
          (alias_struct demo.cell 99976 99992 5))
fi_ep_alias-fails_example =
    fi_ep_alias-fails 16 40 5 (keeps demo_host 24 16 (omega arith) (omega arith) (omega arith)) refl
      refl

-- A provider that knows the command FI_ALIAS only.
abbrev make : ℕ → ℕ → ℕ
make fid flags = fid + flags + 5000

abbrev write_alias : ℕ → ℕ → Option ℕ → Option ℕ → Cells → Option (ℤ × Cells)
write_alias fid p (some place) (some flags) c = some (pos 0, update c place (make fid flags))
write_alias fid p _ _ c = none

abbrev alias_control : Method
alias_control (fid ∷ cmd ∷ p ∷ []) c = write_alias fid p (c p) (c (p + 8)) c
alias_control _ c = none

abbrev alias_host : Host
alias_host = record { call = λ fn. alias_control; fi_dupinfo = 7; enosys = 38; allocate = bump }

alias_documented : IsAliasControl make alias_control
alias_documented fid p place flags c held_place held_flags = rw (held_place, held_flags) refl

fi_ep_alias-stores_example :
    (c : Cells) × (fi_ep_alias alias_host 16 40 5 demo ≡ some (pos 0, record demo { cell = c }))
    × (c 40 ≡ some 5021)
    × ((q : ℕ) → q ≢ 40 → Apart 99976 24 q → c q ≡ demo.cell q)
fi_ep_alias-stores_example =
    fi_ep_alias-stores make 16 40 5
      (keeps alias_host 24 16 (omega arith) (omega arith) (omega arith)) refl alias_documented
      (omega arith) refl (inl (omega arith))
