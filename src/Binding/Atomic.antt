-- ===== src/Binding/Atomic.antt =====
-- src/XLibfabric/RDMA/FiAtomic.hsc.helper.c, line by line, and the prototypes of include/fi_atomic.h that it wraps.
use xlibfabric.Base.{[], ◌∷◌, refl}
use xlibfabric.Binding.Table.{
  enumeration, int, pointer, size, ssize, u64, Binding, Prototype, Lists,
}

pub data AtomicInline : Type 0 where
  atomic atomicv atomicmsg inject_atomic fetch_atomic fetch_atomicv fetch_atomicmsg : AtomicInline
  compare_atomic compare_atomicv compare_atomicmsg atomicvalid fetch_atomicvalid : AtomicInline
  compare_atomicvalid query_atomic : AtomicInline

pub atomic_binding : AtomicInline → Binding
atomic_binding atomic = record {
  arity = 10;
  types = pointer ∷ pointer ∷ size ∷ pointer ∷ u64 ∷ u64 ∷ u64 ∷ pointer ∷ ssize ∷ [];
}
atomic_binding atomicv = record {
  arity = 10;
  types = pointer ∷ pointer ∷ pointer ∷ size ∷ u64 ∷ u64 ∷ u64 ∷ pointer ∷ ssize ∷ [];
}
atomic_binding atomicmsg = record { arity = 3; types = pointer ∷ pointer ∷ u64 ∷ ssize ∷ [] }
atomic_binding inject_atomic = record {
  arity = 8;
  types = pointer ∷ pointer ∷ size ∷ u64 ∷ u64 ∷ u64 ∷ ssize ∷ [];
}
atomic_binding fetch_atomic = record {
  arity = 12;
  types =
      pointer ∷ pointer ∷ size ∷ pointer ∷ pointer ∷ pointer ∷ u64 ∷ u64 ∷ u64 ∷ pointer ∷ ssize
      ∷ [];
}
atomic_binding fetch_atomicv = record {
  arity = 13;
  types =
      pointer ∷ pointer ∷ pointer ∷ size ∷ pointer ∷ pointer ∷ size ∷ u64 ∷ u64 ∷ u64 ∷ pointer
      ∷ ssize ∷ [];
}
atomic_binding fetch_atomicmsg = record {
  arity = 6;
  types = pointer ∷ pointer ∷ pointer ∷ pointer ∷ size ∷ u64 ∷ ssize ∷ [];
}
atomic_binding compare_atomic = record {
  arity = 14;
  types =
      pointer ∷ pointer ∷ size ∷ pointer ∷ pointer ∷ pointer ∷ pointer ∷ pointer ∷ u64 ∷ u64 ∷ u64
      ∷ pointer ∷ ssize ∷ [];
}
atomic_binding compare_atomicv = record {
  arity = 16;
  types =
      pointer ∷ pointer ∷ pointer ∷ size ∷ pointer ∷ pointer ∷ size ∷ pointer ∷ pointer ∷ size ∷ u64
      ∷ u64 ∷ u64 ∷ pointer ∷ ssize ∷ [];
}
atomic_binding compare_atomicmsg = record {
  arity = 9;
  types =
      pointer ∷ pointer ∷ pointer ∷ pointer ∷ size ∷ pointer ∷ pointer ∷ size ∷ u64 ∷ ssize ∷ [];
}
atomic_binding atomicvalid = record { arity = 4; types = pointer ∷ pointer ∷ int ∷ [] }
atomic_binding fetch_atomicvalid = record { arity = 4; types = pointer ∷ pointer ∷ int ∷ [] }
atomic_binding compare_atomicvalid = record { arity = 4; types = pointer ∷ pointer ∷ int ∷ [] }
atomic_binding query_atomic = record { arity = 5; types = pointer ∷ pointer ∷ u64 ∷ int ∷ [] }

pub atomic_prototype : AtomicInline → Prototype
atomic_prototype atomic = record {
  params =
      pointer ∷ pointer ∷ size ∷ pointer ∷ u64 ∷ u64 ∷ u64 ∷ enumeration ∷ enumeration ∷ pointer
      ∷ [];
  result = ssize;
}
atomic_prototype atomicv = record {
  params =
      pointer ∷ pointer ∷ pointer ∷ size ∷ u64 ∷ u64 ∷ u64 ∷ enumeration ∷ enumeration ∷ pointer
      ∷ [];
  result = ssize;
}
atomic_prototype atomicmsg = record { params = pointer ∷ pointer ∷ u64 ∷ []; result = ssize }
atomic_prototype inject_atomic = record {
  params = pointer ∷ pointer ∷ size ∷ u64 ∷ u64 ∷ u64 ∷ enumeration ∷ enumeration ∷ [];
  result = ssize;
}
atomic_prototype fetch_atomic = record {
  params =
      pointer ∷ pointer ∷ size ∷ pointer ∷ pointer ∷ pointer ∷ u64 ∷ u64 ∷ u64 ∷ enumeration
      ∷ enumeration ∷ pointer ∷ [];
  result = ssize;
}
atomic_prototype fetch_atomicv = record {
  params =
      pointer ∷ pointer ∷ pointer ∷ size ∷ pointer ∷ pointer ∷ size ∷ u64 ∷ u64 ∷ u64 ∷ enumeration
      ∷ enumeration ∷ pointer ∷ [];
  result = ssize;
}
atomic_prototype fetch_atomicmsg = record {
  params = pointer ∷ pointer ∷ pointer ∷ pointer ∷ size ∷ u64 ∷ [];
  result = ssize;
}
atomic_prototype compare_atomic = record {
  params =
      pointer ∷ pointer ∷ size ∷ pointer ∷ pointer ∷ pointer ∷ pointer ∷ pointer ∷ u64 ∷ u64 ∷ u64
      ∷ enumeration ∷ enumeration ∷ pointer ∷ [];
  result = ssize;
}
atomic_prototype compare_atomicv = record {
  params =
      pointer ∷ pointer ∷ pointer ∷ size ∷ pointer ∷ pointer ∷ size ∷ pointer ∷ pointer ∷ size ∷ u64
      ∷ u64 ∷ u64 ∷ enumeration ∷ enumeration ∷ pointer ∷ [];
  result = ssize;
}
atomic_prototype compare_atomicmsg = record {
  params = pointer ∷ pointer ∷ pointer ∷ pointer ∷ size ∷ pointer ∷ pointer ∷ size ∷ u64 ∷ [];
  result = ssize;
}
atomic_prototype atomicvalid = record {
  params = pointer ∷ enumeration ∷ enumeration ∷ pointer ∷ [];
  result = int;
}
atomic_prototype fetch_atomicvalid = record {
  params = pointer ∷ enumeration ∷ enumeration ∷ pointer ∷ [];
  result = int;
}
atomic_prototype compare_atomicvalid = record {
  params = pointer ∷ enumeration ∷ enumeration ∷ pointer ∷ [];
  result = int;
}
atomic_prototype query_atomic = record {
  params = pointer ∷ enumeration ∷ enumeration ∷ pointer ∷ u64 ∷ [];
  result = int;
}

pub atomic_binding-Lists : (f : AtomicInline) → Lists (atomic_binding f) (atomic_prototype f)
unfolding atomic_binding atomic_prototype
atomic_binding-Lists atomic = (refl, refl)
atomic_binding-Lists atomicv = (refl, refl)
atomic_binding-Lists atomicmsg = (refl, refl)
atomic_binding-Lists inject_atomic = (refl, refl)
atomic_binding-Lists fetch_atomic = (refl, refl)
atomic_binding-Lists fetch_atomicv = (refl, refl)
atomic_binding-Lists fetch_atomicmsg = (refl, refl)
atomic_binding-Lists compare_atomic = (refl, refl)
atomic_binding-Lists compare_atomicv = (refl, refl)
atomic_binding-Lists compare_atomicmsg = (refl, refl)
atomic_binding-Lists atomicvalid = (refl, refl)
atomic_binding-Lists fetch_atomicvalid = (refl, refl)
atomic_binding-Lists compare_atomicvalid = (refl, refl)
atomic_binding-Lists query_atomic = (refl, refl)
