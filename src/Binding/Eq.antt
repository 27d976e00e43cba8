-- ===== src/Binding/Eq.antt =====
-- src/XLibfabric/RDMA/FiEq.hsc.helper.c, line by line, and the prototypes of include/fi_eq.h that it wraps.
use xlibfabric.Base.{[], ◌∷◌, refl}
use xlibfabric.Binding.Table.{int, pointer, size, ssize, u32, u64, Binding, Prototype, Lists}

pub data EqInline : Type 0 where
  trywait wait poll poll_add poll_del eq_open eq_read eq_readerr eq_write eq_sread : EqInline
  eq_strerror cq_read cq_readfrom cq_readerr cq_sread cq_sreadfrom cq_signal : EqInline
  cq_strerror cntr_read cntr_readerr cntr_add cntr_adderr cntr_set cntr_seterr : EqInline
  cntr_wait : EqInline

pub eq_binding : EqInline → Binding
eq_binding trywait = record { arity = 3; types = pointer ∷ pointer ∷ int ∷ int ∷ [] }
eq_binding wait = record { arity = 2; types = pointer ∷ int ∷ int ∷ [] }
eq_binding poll = record { arity = 3; types = pointer ∷ pointer ∷ int ∷ int ∷ [] }
eq_binding poll_add = record { arity = 3; types = pointer ∷ pointer ∷ u64 ∷ int ∷ [] }
eq_binding poll_del = record { arity = 3; types = pointer ∷ pointer ∷ u64 ∷ int ∷ [] }
eq_binding eq_open = record { arity = 4; types = pointer ∷ pointer ∷ pointer ∷ pointer ∷ int ∷ [] }
eq_binding eq_read = record {
  arity = 5;
  types = pointer ∷ pointer ∷ pointer ∷ size ∷ u64 ∷ ssize ∷ [];
}
eq_binding eq_readerr = record { arity = 3; types = pointer ∷ pointer ∷ u64 ∷ ssize ∷ [] }
eq_binding eq_write = record {
  arity = 5;
  types = pointer ∷ u32 ∷ pointer ∷ size ∷ u64 ∷ ssize ∷ [];
}
eq_binding eq_sread = record {
  arity = 6;
  types = pointer ∷ pointer ∷ pointer ∷ size ∷ int ∷ u64 ∷ ssize ∷ [];
}
eq_binding eq_strerror = record {
  arity = 5;
  types = pointer ∷ int ∷ pointer ∷ pointer ∷ size ∷ pointer ∷ [];
}
eq_binding cq_read = record { arity = 3; types = pointer ∷ pointer ∷ size ∷ ssize ∷ [] }
eq_binding cq_readfrom = record {
  arity = 4;
  types = pointer ∷ pointer ∷ size ∷ pointer ∷ ssize ∷ [];
}
eq_binding cq_readerr = record { arity = 3; types = pointer ∷ pointer ∷ u64 ∷ ssize ∷ [] }
eq_binding cq_sread = record {
  arity = 5;
  types = pointer ∷ pointer ∷ size ∷ pointer ∷ int ∷ ssize ∷ [];
}
eq_binding cq_sreadfrom = record {
  arity = 6;
  types = pointer ∷ pointer ∷ size ∷ pointer ∷ pointer ∷ int ∷ ssize ∷ [];
}
eq_binding cq_signal = record { arity = 1; types = pointer ∷ int ∷ [] }
eq_binding cq_strerror = record {
  arity = 5;
  types = pointer ∷ int ∷ pointer ∷ pointer ∷ size ∷ pointer ∷ [];
}
eq_binding cntr_read = record { arity = 1; types = pointer ∷ u64 ∷ [] }
eq_binding cntr_readerr = record { arity = 1; types = pointer ∷ u64 ∷ [] }
eq_binding cntr_add = record { arity = 2; types = pointer ∷ u64 ∷ int ∷ [] }
eq_binding cntr_adderr = record { arity = 2; types = pointer ∷ u64 ∷ int ∷ [] }
eq_binding cntr_set = record { arity = 2; types = pointer ∷ u64 ∷ int ∷ [] }
eq_binding cntr_seterr = record { arity = 2; types = pointer ∷ u64 ∷ int ∷ [] }
eq_binding cntr_wait = record { arity = 3; types = pointer ∷ u64 ∷ int ∷ int ∷ [] }

pub eq_prototype : EqInline → Prototype
eq_prototype trywait = record { params = pointer ∷ pointer ∷ int ∷ []; result = int }
eq_prototype wait = record { params = pointer ∷ int ∷ []; result = int }
eq_prototype poll = record { params = pointer ∷ pointer ∷ int ∷ []; result = int }
eq_prototype poll_add = record { params = pointer ∷ pointer ∷ u64 ∷ []; result = int }
eq_prototype poll_del = record { params = pointer ∷ pointer ∷ u64 ∷ []; result = int }
eq_prototype eq_open = record { params = pointer ∷ pointer ∷ pointer ∷ pointer ∷ []; result = int }
eq_prototype eq_read = record {
  params = pointer ∷ pointer ∷ pointer ∷ size ∷ u64 ∷ [];
  result = ssize;
}
eq_prototype eq_readerr = record { params = pointer ∷ pointer ∷ u64 ∷ []; result = ssize }
eq_prototype eq_write = record {
  params = pointer ∷ u32 ∷ pointer ∷ size ∷ u64 ∷ [];
  result = ssize;
}
eq_prototype eq_sread = record {
  params = pointer ∷ pointer ∷ pointer ∷ size ∷ int ∷ u64 ∷ [];
  result = ssize;
}
eq_prototype eq_strerror = record {
  params = pointer ∷ int ∷ pointer ∷ pointer ∷ size ∷ [];
  result = pointer;
}
eq_prototype cq_read = record { params = pointer ∷ pointer ∷ size ∷ []; result = ssize }
eq_prototype cq_readfrom = record {
  params = pointer ∷ pointer ∷ size ∷ pointer ∷ [];
  result = ssize;
}
eq_prototype cq_readerr = record { params = pointer ∷ pointer ∷ u64 ∷ []; result = ssize }
eq_prototype cq_sread = record {
  params = pointer ∷ pointer ∷ size ∷ pointer ∷ int ∷ [];
  result = ssize;
}
eq_prototype cq_sreadfrom = record {
  params = pointer ∷ pointer ∷ size ∷ pointer ∷ pointer ∷ int ∷ [];
  result = ssize;
}
eq_prototype cq_signal = record { params = pointer ∷ []; result = int }
eq_prototype cq_strerror = record {
  params = pointer ∷ int ∷ pointer ∷ pointer ∷ size ∷ [];
  result = pointer;
}
eq_prototype cntr_read = record { params = pointer ∷ []; result = u64 }
eq_prototype cntr_readerr = record { params = pointer ∷ []; result = u64 }
eq_prototype cntr_add = record { params = pointer ∷ u64 ∷ []; result = int }
eq_prototype cntr_adderr = record { params = pointer ∷ u64 ∷ []; result = int }
eq_prototype cntr_set = record { params = pointer ∷ u64 ∷ []; result = int }
eq_prototype cntr_seterr = record { params = pointer ∷ u64 ∷ []; result = int }
eq_prototype cntr_wait = record { params = pointer ∷ u64 ∷ int ∷ []; result = int }

pub eq_binding-Lists : (f : EqInline) → Lists (eq_binding f) (eq_prototype f)
unfolding eq_binding eq_prototype
eq_binding-Lists trywait = (refl, refl)
eq_binding-Lists wait = (refl, refl)
eq_binding-Lists poll = (refl, refl)
eq_binding-Lists poll_add = (refl, refl)
eq_binding-Lists poll_del = (refl, refl)
eq_binding-Lists eq_open = (refl, refl)
eq_binding-Lists eq_read = (refl, refl)
eq_binding-Lists eq_readerr = (refl, refl)
eq_binding-Lists eq_write = (refl, refl)
eq_binding-Lists eq_sread = (refl, refl)
eq_binding-Lists eq_strerror = (refl, refl)
eq_binding-Lists cq_read = (refl, refl)
eq_binding-Lists cq_readfrom = (refl, refl)
eq_binding-Lists cq_readerr = (refl, refl)
eq_binding-Lists cq_sread = (refl, refl)
eq_binding-Lists cq_sreadfrom = (refl, refl)
eq_binding-Lists cq_signal = (refl, refl)
eq_binding-Lists cq_strerror = (refl, refl)
eq_binding-Lists cntr_read = (refl, refl)
eq_binding-Lists cntr_readerr = (refl, refl)
eq_binding-Lists cntr_add = (refl, refl)
eq_binding-Lists cntr_adderr = (refl, refl)
eq_binding-Lists cntr_set = (refl, refl)
eq_binding-Lists cntr_seterr = (refl, refl)
eq_binding-Lists cntr_wait = (refl, refl)
