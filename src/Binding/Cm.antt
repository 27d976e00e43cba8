-- ===== src/Binding/Cm.antt =====
-- src/XLibfabric/RDMA/FiCm.hsc.helper.c, line by line, and the prototypes of include/fi_cm.h that it wraps.
use xlibfabric.Base.{[], ◌∷◌, refl}
use xlibfabric.Binding.Table.{int, pointer, size, u64, Binding, Prototype, Lists}

pub data CmInline : Type 0 where
  setname getname getpeer listen connect accept reject shutdown join mc_addr : CmInline

pub cm_binding : CmInline → Binding
cm_binding setname = record { arity = 3; types = pointer ∷ pointer ∷ size ∷ int ∷ [] }
cm_binding getname = record { arity = 3; types = pointer ∷ pointer ∷ pointer ∷ int ∷ [] }
cm_binding getpeer = record { arity = 3; types = pointer ∷ pointer ∷ pointer ∷ int ∷ [] }
cm_binding listen = record { arity = 1; types = pointer ∷ int ∷ [] }
cm_binding connect = record { arity = 4; types = pointer ∷ pointer ∷ pointer ∷ size ∷ int ∷ [] }
cm_binding accept = record { arity = 3; types = pointer ∷ pointer ∷ size ∷ int ∷ [] }
cm_binding reject = record { arity = 4; types = pointer ∷ pointer ∷ pointer ∷ size ∷ int ∷ [] }
cm_binding shutdown = record { arity = 2; types = pointer ∷ u64 ∷ int ∷ [] }
cm_binding join = record {
  arity = 5;
  types = pointer ∷ pointer ∷ u64 ∷ pointer ∷ pointer ∷ int ∷ [];
}
cm_binding mc_addr = record { arity = 1; types = pointer ∷ u64 ∷ [] }

pub cm_prototype : CmInline → Prototype
cm_prototype setname = record { params = pointer ∷ pointer ∷ size ∷ []; result = int }
cm_prototype getname = record { params = pointer ∷ pointer ∷ pointer ∷ []; result = int }
cm_prototype getpeer = record { params = pointer ∷ pointer ∷ pointer ∷ []; result = int }
cm_prototype listen = record { params = pointer ∷ []; result = int }
cm_prototype connect = record { params = pointer ∷ pointer ∷ pointer ∷ size ∷ []; result = int }
cm_prototype accept = record { params = pointer ∷ pointer ∷ size ∷ []; result = int }
cm_prototype reject = record { params = pointer ∷ pointer ∷ pointer ∷ size ∷ []; result = int }
cm_prototype shutdown = record { params = pointer ∷ u64 ∷ []; result = int }
cm_prototype join = record {
  params = pointer ∷ pointer ∷ u64 ∷ pointer ∷ pointer ∷ [];
  result = int;
}
cm_prototype mc_addr = record { params = pointer ∷ []; result = u64 }

pub cm_binding-Lists : (f : CmInline) → Lists (cm_binding f) (cm_prototype f)
unfolding cm_binding cm_prototype
cm_binding-Lists setname = (refl, refl)
cm_binding-Lists getname = (refl, refl)
cm_binding-Lists getpeer = (refl, refl)
cm_binding-Lists listen = (refl, refl)
cm_binding-Lists connect = (refl, refl)
cm_binding-Lists accept = (refl, refl)
cm_binding-Lists reject = (refl, refl)
cm_binding-Lists shutdown = (refl, refl)
cm_binding-Lists join = (refl, refl)
cm_binding-Lists mc_addr = (refl, refl)
