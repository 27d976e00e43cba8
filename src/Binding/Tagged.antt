-- ===== src/Binding/Tagged.antt =====
-- src/XLibfabric/RDMA/FiTagged.hsc.helper.c, line by line, and the prototypes of include/fi_tagged.h that it wraps.
use xlibfabric.Base.{[], ◌∷◌, refl}
use xlibfabric.Binding.Table.{pointer, size, ssize, u64, Binding, Prototype, Lists}

pub data TaggedInline : Type 0 where
  trecv trecvv trecvmsg tsend tsendv tsendmsg tinject tsenddata tinjectdata : TaggedInline

pub tagged_binding : TaggedInline → Binding
tagged_binding trecv = record {
  arity = 8;
  types = pointer ∷ pointer ∷ size ∷ pointer ∷ u64 ∷ u64 ∷ u64 ∷ pointer ∷ ssize ∷ [];
}
tagged_binding trecvv = record {
  arity = 8;
  types = pointer ∷ pointer ∷ pointer ∷ size ∷ u64 ∷ u64 ∷ u64 ∷ pointer ∷ ssize ∷ [];
}
tagged_binding trecvmsg = record { arity = 3; types = pointer ∷ pointer ∷ u64 ∷ ssize ∷ [] }
tagged_binding tsend = record {
  arity = 7;
  types = pointer ∷ pointer ∷ size ∷ pointer ∷ u64 ∷ u64 ∷ pointer ∷ ssize ∷ [];
}
tagged_binding tsendv = record {
  arity = 7;
  types = pointer ∷ pointer ∷ pointer ∷ size ∷ u64 ∷ u64 ∷ pointer ∷ ssize ∷ [];
}
tagged_binding tsendmsg = record { arity = 3; types = pointer ∷ pointer ∷ u64 ∷ ssize ∷ [] }
tagged_binding tinject = record {
  arity = 5;
  types = pointer ∷ pointer ∷ size ∷ u64 ∷ u64 ∷ ssize ∷ [];
}
tagged_binding tsenddata = record {
  arity = 8;
  types = pointer ∷ pointer ∷ size ∷ pointer ∷ u64 ∷ u64 ∷ u64 ∷ pointer ∷ ssize ∷ [];
}
tagged_binding tinjectdata = record {
  arity = 6;
  types = pointer ∷ pointer ∷ size ∷ u64 ∷ u64 ∷ u64 ∷ ssize ∷ [];
}

pub tagged_prototype : TaggedInline → Prototype
tagged_prototype trecv = record {
  params = pointer ∷ pointer ∷ size ∷ pointer ∷ u64 ∷ u64 ∷ u64 ∷ pointer ∷ [];
  result = ssize;
}
tagged_prototype trecvv = record {
  params = pointer ∷ pointer ∷ pointer ∷ size ∷ u64 ∷ u64 ∷ u64 ∷ pointer ∷ [];
  result = ssize;
}
tagged_prototype trecvmsg = record { params = pointer ∷ pointer ∷ u64 ∷ []; result = ssize }
tagged_prototype tsend = record {
  params = pointer ∷ pointer ∷ size ∷ pointer ∷ u64 ∷ u64 ∷ pointer ∷ [];
  result = ssize;
}
tagged_prototype tsendv = record {
  params = pointer ∷ pointer ∷ pointer ∷ size ∷ u64 ∷ u64 ∷ pointer ∷ [];
  result = ssize;
}
tagged_prototype tsendmsg = record { params = pointer ∷ pointer ∷ u64 ∷ []; result = ssize }
tagged_prototype tinject = record {
  params = pointer ∷ pointer ∷ size ∷ u64 ∷ u64 ∷ [];
  result = ssize;
}
tagged_prototype tsenddata = record {
  params = pointer ∷ pointer ∷ size ∷ pointer ∷ u64 ∷ u64 ∷ u64 ∷ pointer ∷ [];
  result = ssize;
}
tagged_prototype tinjectdata = record {
  params = pointer ∷ pointer ∷ size ∷ u64 ∷ u64 ∷ u64 ∷ [];
  result = ssize;
}

pub tagged_binding-Lists : (f : TaggedInline) → Lists (tagged_binding f) (tagged_prototype f)
unfolding tagged_binding tagged_prototype
tagged_binding-Lists trecv = (refl, refl)
tagged_binding-Lists trecvv = (refl, refl)
tagged_binding-Lists trecvmsg = (refl, refl)
tagged_binding-Lists tsend = (refl, refl)
tagged_binding-Lists tsendv = (refl, refl)
tagged_binding-Lists tsendmsg = (refl, refl)
tagged_binding-Lists tinject = (refl, refl)
tagged_binding-Lists tsenddata = (refl, refl)
tagged_binding-Lists tinjectdata = (refl, refl)
