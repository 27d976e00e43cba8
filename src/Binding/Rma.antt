-- ===== src/Binding/Rma.antt =====
-- src/XLibfabric/RDMA/FiRma.hsc.helper.c, line by line, and the prototypes of include/fi_rma.h that it wraps.
use xlibfabric.Base.{[], ◌∷◌, refl}
use xlibfabric.Binding.Table.{pointer, size, ssize, u64, Binding, Prototype, Lists}

pub data RmaInline : Type 0 where
  read readv readmsg write writev writemsg inject_write writedata inject_writedata : RmaInline

pub rma_binding : RmaInline → Binding
rma_binding read = record {
  arity = 8;
  types = pointer ∷ pointer ∷ size ∷ pointer ∷ u64 ∷ u64 ∷ u64 ∷ pointer ∷ ssize ∷ [];
}
rma_binding readv = record {
  arity = 8;
  types = pointer ∷ pointer ∷ pointer ∷ size ∷ u64 ∷ u64 ∷ u64 ∷ pointer ∷ ssize ∷ [];
}
rma_binding readmsg = record { arity = 3; types = pointer ∷ pointer ∷ u64 ∷ ssize ∷ [] }
rma_binding write = record {
  arity = 8;
  types = pointer ∷ pointer ∷ size ∷ pointer ∷ u64 ∷ u64 ∷ u64 ∷ pointer ∷ ssize ∷ [];
}
rma_binding writev = record {
  arity = 8;
  types = pointer ∷ pointer ∷ pointer ∷ size ∷ u64 ∷ u64 ∷ u64 ∷ pointer ∷ ssize ∷ [];
}
rma_binding writemsg = record { arity = 3; types = pointer ∷ pointer ∷ u64 ∷ ssize ∷ [] }
rma_binding inject_write = record {
  arity = 6;
  types = pointer ∷ pointer ∷ size ∷ u64 ∷ u64 ∷ u64 ∷ ssize ∷ [];
}
rma_binding writedata = record {
  arity = 9;
  types = pointer ∷ pointer ∷ size ∷ pointer ∷ u64 ∷ u64 ∷ u64 ∷ u64 ∷ pointer ∷ ssize ∷ [];
}
rma_binding inject_writedata = record {
  arity = 7;
  types = pointer ∷ pointer ∷ size ∷ u64 ∷ u64 ∷ u64 ∷ u64 ∷ ssize ∷ [];
}

pub rma_prototype : RmaInline → Prototype
rma_prototype read = record {
  params = pointer ∷ pointer ∷ size ∷ pointer ∷ u64 ∷ u64 ∷ u64 ∷ pointer ∷ [];
  result = ssize;
}
rma_prototype readv = record {
  params = pointer ∷ pointer ∷ pointer ∷ size ∷ u64 ∷ u64 ∷ u64 ∷ pointer ∷ [];
  result = ssize;
}
rma_prototype readmsg = record { params = pointer ∷ pointer ∷ u64 ∷ []; result = ssize }
rma_prototype write = record {
  params = pointer ∷ pointer ∷ size ∷ pointer ∷ u64 ∷ u64 ∷ u64 ∷ pointer ∷ [];
  result = ssize;
}
rma_prototype writev = record {
  params = pointer ∷ pointer ∷ pointer ∷ size ∷ u64 ∷ u64 ∷ u64 ∷ pointer ∷ [];
  result = ssize;
}
rma_prototype writemsg = record { params = pointer ∷ pointer ∷ u64 ∷ []; result = ssize }
rma_prototype inject_write = record {
  params = pointer ∷ pointer ∷ size ∷ u64 ∷ u64 ∷ u64 ∷ [];
  result = ssize;
}
rma_prototype writedata = record {
  params = pointer ∷ pointer ∷ size ∷ pointer ∷ u64 ∷ u64 ∷ u64 ∷ u64 ∷ pointer ∷ [];
  result = ssize;
}
rma_prototype inject_writedata = record {
  params = pointer ∷ pointer ∷ size ∷ u64 ∷ u64 ∷ u64 ∷ u64 ∷ [];
  result = ssize;
}

pub rma_binding-Lists : (f : RmaInline) → Lists (rma_binding f) (rma_prototype f)
unfolding rma_binding rma_prototype
rma_binding-Lists read = (refl, refl)
rma_binding-Lists readv = (refl, refl)
rma_binding-Lists readmsg = (refl, refl)
rma_binding-Lists write = (refl, refl)
rma_binding-Lists writev = (refl, refl)
rma_binding-Lists writemsg = (refl, refl)
rma_binding-Lists inject_write = (refl, refl)
rma_binding-Lists writedata = (refl, refl)
rma_binding-Lists inject_writedata = (refl, refl)
