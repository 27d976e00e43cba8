-- ===== src/Binding/Fabric.antt =====
-- src/XLibfabric/RDMA/Fabric.hsc.helper.c, line by line, and the prototypes of include/fabric.h that it wraps.
use xlibfabric.Base.{[], ◌∷◌, refl}
use xlibfabric.Binding.Table.{int, pointer, u32, u64, u8, Binding, Prototype, Lists}

pub data FabricInline : Type 0 where
  tc_dscp_set tc_dscp_get allocinfo close control alias open_ops set_ops : FabricInline

pub fabric_binding : FabricInline → Binding
fabric_binding tc_dscp_set = record { arity = 1; types = u8 ∷ u32 ∷ [] }
fabric_binding tc_dscp_get = record { arity = 1; types = u32 ∷ u8 ∷ [] }
fabric_binding allocinfo = record { arity = 0; types = pointer ∷ [] }
fabric_binding close = record { arity = 1; types = pointer ∷ int ∷ [] }
fabric_binding control = record { arity = 3; types = pointer ∷ int ∷ pointer ∷ int ∷ [] }
fabric_binding alias = record { arity = 3; types = pointer ∷ pointer ∷ u64 ∷ int ∷ [] }
fabric_binding open_ops = record {
  arity = 5;
  types = pointer ∷ pointer ∷ u64 ∷ pointer ∷ pointer ∷ int ∷ [];
}
fabric_binding set_ops = record {
  arity = 5;
  types = pointer ∷ pointer ∷ u64 ∷ pointer ∷ pointer ∷ int ∷ [];
}

pub fabric_prototype : FabricInline → Prototype
fabric_prototype tc_dscp_set = record { params = u8 ∷ []; result = u32 }
fabric_prototype tc_dscp_get = record { params = u32 ∷ []; result = u8 }
fabric_prototype allocinfo = record { params = []; result = pointer }
fabric_prototype close = record { params = pointer ∷ []; result = int }
fabric_prototype control = record { params = pointer ∷ int ∷ pointer ∷ []; result = int }
fabric_prototype alias = record { params = pointer ∷ pointer ∷ u64 ∷ []; result = int }
fabric_prototype open_ops = record {
  params = pointer ∷ pointer ∷ u64 ∷ pointer ∷ pointer ∷ [];
  result = int;
}
fabric_prototype set_ops = record {
  params = pointer ∷ pointer ∷ u64 ∷ pointer ∷ pointer ∷ [];
  result = int;
}

pub fabric_binding-Lists : (f : FabricInline) → Lists (fabric_binding f) (fabric_prototype f)
unfolding fabric_binding fabric_prototype
fabric_binding-Lists tc_dscp_set = (refl, refl)
fabric_binding-Lists tc_dscp_get = (refl, refl)
fabric_binding-Lists allocinfo = (refl, refl)
fabric_binding-Lists close = (refl, refl)
fabric_binding-Lists control = (refl, refl)
fabric_binding-Lists alias = (refl, refl)
fabric_binding-Lists open_ops = (refl, refl)
fabric_binding-Lists set_ops = (refl, refl)
