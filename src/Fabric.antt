-- ===== src/Fabric.antt =====
-- include/fabric.h: the inline functions on any object, through `fid->ops`.
pub mod Layout
pub mod Dispatch
pub mod CheckOp
pub mod Info
pub mod Version
pub mod TrafficClass
pub mod Optional
pub mod Flags
pub mod Enums
pub mod InfoFields
use Layout.{Fid, FiOps, FiAlias, command_code, alias, fid_layout, fi_ops_layout, fi_alias_layout}
use CheckOp.{checked_vcall}
use xlibfabric.Base.{ℕ, List, [], ◌∷◌, ℤ}
use xlibfabric.Machine.{Host, M, frame, assign, vcall, invoke, sizeof, addr_of, ◌>>◌}

module _ (host : Host) where
  unfoldable pub fi_allocinfo : M ℤ
  fi_allocinfo = invoke host host.fi_dupinfo (0 ∷ [])

  unfoldable pub fi_close : (fid : ℕ) → M ℤ
  fi_close fid = vcall host fid Fid.ops FiOps.close (fid ∷ [])

  unfoldable pub fi_control : (fid command arg : ℕ) → M ℤ
  fi_control fid command arg = vcall host fid Fid.ops FiOps.control (fid ∷ command ∷ arg ∷ [])

  unfoldable pub fi_alias : (fid alias_fid flags : ℕ) → M ℤ
  fi_alias fid alias_fid flags = frame (sizeof FiAlias) λ local. do
    assign (addr_of local FiAlias.fid) alias_fid
    assign (addr_of local FiAlias.flags) flags
    fi_control fid (command_code alias) local

  unfoldable pub fi_open_ops : (fid name flags ops context : ℕ) → M ℤ
  fi_open_ops fid name flags ops context =
      vcall host fid Fid.ops FiOps.ops_open (fid ∷ name ∷ flags ∷ ops ∷ context ∷ [])

  unfoldable pub fi_set_ops : (fid name flags ops context : ℕ) → M ℤ
  fi_set_ops fid name flags ops context =
      checked_vcall host fid Fid.ops FiOps.ops_set (fid ∷ name ∷ flags ∷ ops ∷ context ∷ [])
