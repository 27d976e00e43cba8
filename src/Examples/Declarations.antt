-- ===== src/Examples/Declarations.antt =====
-- Structs, error numbers and macros at concrete arguments.
use xlibfabric.Base.{ℕ, ◌<◌, ◌≡◌, refl, arith, none, some, [], ◌∷◌, ◌++◌, pos}
use xlibfabric.Machine.{State, update}
use xlibfabric.Abi.{lp64, struct_of, kinds, offsets, end_of, Members}
use xlibfabric.Trigger.{fi_triggered_context_members, fi_triggered_context2_members}
use xlibfabric.Trigger.Messages.{fi_context_members, fi_context2_members}
use xlibfabric.Trigger.Sizes.{triggered_context-size}
use xlibfabric.Eq.Entries.{CqField}
use xlibfabric.Eq.Entries.Formats.{CqEntry, cq_members, cq_members-richer}
use xlibfabric.Eq.Layout.{FidCq, fid_cq_layout}
use xlibfabric.Endpoint.Layout.{fid_ep_layout}
use xlibfabric.Fabric.Layout.{Fid, fid_layout, fi_ops_layout}
use xlibfabric.Errno.{SystemError, system, code, fi_errno_max}
use xlibfabric.Errno.Codes.{fabric_error, code-own}
use xlibfabric.Shared.Macros.{ft_ep_bind, ft_ep_bind-perform}
use xlibfabric.Examples.World.{digest, demo_host, demo, demo-Represents}

triggered_context-size_example :
    (struct_of (kinds (fi_triggered_context_members lp64))
      ≡ struct_of (kinds (fi_context_members lp64)))
    × (struct_of (kinds (fi_triggered_context2_members lp64))
        ≡ struct_of (kinds (fi_context2_members lp64)))
triggered_context-size_example = triggered_context-size lp64

cq_members-richer_example :
    (more : Members CqField) × (cq_members lp64 CqEntry.data_entry
      ≡ cq_members lp64 CqEntry.msg_entry ++ more)
    × (offsets 0 (kinds (cq_members lp64 CqEntry.data_entry))
        ≡ offsets 0 (kinds (cq_members lp64 CqEntry.msg_entry))
          ++ offsets (end_of 0 (kinds (cq_members lp64 CqEntry.msg_entry))) (kinds more))
cq_members-richer_example = cq_members-richer lp64 CqEntry.msg_entry

-- A system with one error number.
abbrev eleven : SystemError → ℕ
eleven e = 11

code-own_example :
    (fabric_error (code eleven (system SystemError.eagain)) ≡ none)
    × (code eleven (system SystemError.eagain) < fi_errno_max)
code-own_example = code-own eleven (λ e. omega arith) (system SystemError.eagain)

-- The state behind the call.
abbrev bound_state : State
bound_state = record demo { cell = update demo.cell 8 (digest (16 ∷ 400 ∷ 4 ∷ [])) }

ft_ep_bind-perform_example :
    (ft_ep_bind demo_host FidCq.fid 16 0 4 demo ≡ some (none, demo))
    × (ft_ep_bind demo_host FidCq.fid 16 400 4 demo ≡ some (some (pos 2048), bound_state))
ft_ep_bind-perform_example =
    ft_ep_bind-perform 16 FidCq.fid 400 4 (pos 2048) bound_state (omega arith)
      (demo-Represents 16 Fid.ops (omega arith)) refl
