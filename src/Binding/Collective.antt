-- ===== src/Binding/Collective.antt =====
-- src/XLibfabric/RDMA/FiCollective.hsc.helper.c, line by line, and the prototypes of include/fi_collective.h that it wraps.
use xlibfabric.Base.{[], ◌∷◌, refl}
use xlibfabric.Binding.Table.{
  enumeration, int, pointer, size, ssize, u64, Binding, Prototype, Lists,
}

pub data CollectiveInline : Type 0 where
  av_set av_set_union av_set_intersect av_set_diff av_set_insert av_set_remove : CollectiveInline
  av_set_addr join_collective barrier broadcast alltoall allreduce allgather : CollectiveInline
  reduce_scatter reduce scatter gather query_collective : CollectiveInline

pub collective_binding : CollectiveInline → Binding
collective_binding av_set = record {
  arity = 4;
  types = pointer ∷ pointer ∷ pointer ∷ pointer ∷ int ∷ [];
}
collective_binding av_set_union = record { arity = 2; types = pointer ∷ pointer ∷ int ∷ [] }
collective_binding av_set_intersect = record { arity = 2; types = pointer ∷ pointer ∷ int ∷ [] }
collective_binding av_set_diff = record { arity = 2; types = pointer ∷ pointer ∷ int ∷ [] }
collective_binding av_set_insert = record { arity = 2; types = pointer ∷ u64 ∷ int ∷ [] }
collective_binding av_set_remove = record { arity = 2; types = pointer ∷ u64 ∷ int ∷ [] }
collective_binding av_set_addr = record { arity = 2; types = pointer ∷ pointer ∷ int ∷ [] }
collective_binding join_collective = record {
  arity = 6;
  types = pointer ∷ u64 ∷ pointer ∷ u64 ∷ pointer ∷ pointer ∷ int ∷ [];
}
collective_binding barrier = record { arity = 3; types = pointer ∷ u64 ∷ pointer ∷ ssize ∷ [] }
collective_binding broadcast = record {
  arity = 9;
  types = pointer ∷ pointer ∷ size ∷ pointer ∷ u64 ∷ u64 ∷ u64 ∷ pointer ∷ ssize ∷ [];
}
collective_binding alltoall = record {
  arity = 10;
  types = pointer ∷ pointer ∷ size ∷ pointer ∷ pointer ∷ pointer ∷ u64 ∷ u64 ∷ pointer ∷ ssize ∷ [];
}
collective_binding allreduce = record {
  arity = 11;
  types = pointer ∷ pointer ∷ size ∷ pointer ∷ pointer ∷ pointer ∷ u64 ∷ u64 ∷ pointer ∷ ssize ∷ [];
}
collective_binding allgather = record {
  arity = 10;
  types = pointer ∷ pointer ∷ size ∷ pointer ∷ pointer ∷ pointer ∷ u64 ∷ u64 ∷ pointer ∷ ssize ∷ [];
}
collective_binding reduce_scatter = record {
  arity = 11;
  types = pointer ∷ pointer ∷ size ∷ pointer ∷ pointer ∷ pointer ∷ u64 ∷ u64 ∷ pointer ∷ ssize ∷ [];
}
collective_binding reduce = record {
  arity = 12;
  types =
      pointer ∷ pointer ∷ size ∷ pointer ∷ pointer ∷ pointer ∷ u64 ∷ u64 ∷ u64 ∷ pointer ∷ ssize
      ∷ [];
}
collective_binding scatter = record {
  arity = 11;
  types =
      pointer ∷ pointer ∷ size ∷ pointer ∷ pointer ∷ pointer ∷ u64 ∷ u64 ∷ u64 ∷ pointer ∷ ssize
      ∷ [];
}
collective_binding gather = record {
  arity = 11;
  types =
      pointer ∷ pointer ∷ size ∷ pointer ∷ pointer ∷ pointer ∷ u64 ∷ u64 ∷ u64 ∷ pointer ∷ ssize
      ∷ [];
}
collective_binding query_collective = record {
  arity = 4;
  types = pointer ∷ pointer ∷ u64 ∷ int ∷ [];
}

pub collective_prototype : CollectiveInline → Prototype
collective_prototype av_set = record {
  params = pointer ∷ pointer ∷ pointer ∷ pointer ∷ [];
  result = int;
}
collective_prototype av_set_union = record { params = pointer ∷ pointer ∷ []; result = int }
collective_prototype av_set_intersect = record { params = pointer ∷ pointer ∷ []; result = int }
collective_prototype av_set_diff = record { params = pointer ∷ pointer ∷ []; result = int }
collective_prototype av_set_insert = record { params = pointer ∷ u64 ∷ []; result = int }
collective_prototype av_set_remove = record { params = pointer ∷ u64 ∷ []; result = int }
collective_prototype av_set_addr = record { params = pointer ∷ pointer ∷ []; result = int }
collective_prototype join_collective = record {
  params = pointer ∷ u64 ∷ pointer ∷ u64 ∷ pointer ∷ pointer ∷ [];
  result = int;
}
collective_prototype barrier = record { params = pointer ∷ u64 ∷ pointer ∷ []; result = ssize }
collective_prototype broadcast = record {
  params = pointer ∷ pointer ∷ size ∷ pointer ∷ u64 ∷ u64 ∷ enumeration ∷ u64 ∷ pointer ∷ [];
  result = ssize;
}
collective_prototype alltoall = record {
  params =
      pointer ∷ pointer ∷ size ∷ pointer ∷ pointer ∷ pointer ∷ u64 ∷ enumeration ∷ u64 ∷ pointer
      ∷ [];
  result = ssize;
}
collective_prototype allreduce = record {
  params =
      pointer ∷ pointer ∷ size ∷ pointer ∷ pointer ∷ pointer ∷ u64 ∷ enumeration ∷ enumeration ∷ u64
      ∷ pointer ∷ [];
  result = ssize;
}
collective_prototype allgather = record {
  params =
      pointer ∷ pointer ∷ size ∷ pointer ∷ pointer ∷ pointer ∷ u64 ∷ enumeration ∷ u64 ∷ pointer
      ∷ [];
  result = ssize;
}
collective_prototype reduce_scatter = record {
  params =
      pointer ∷ pointer ∷ size ∷ pointer ∷ pointer ∷ pointer ∷ u64 ∷ enumeration ∷ enumeration ∷ u64
      ∷ pointer ∷ [];
  result = ssize;
}
collective_prototype reduce = record {
  params =
      pointer ∷ pointer ∷ size ∷ pointer ∷ pointer ∷ pointer ∷ u64 ∷ u64 ∷ enumeration ∷ enumeration
      ∷ u64 ∷ pointer ∷ [];
  result = ssize;
}
collective_prototype scatter = record {
  params =
      pointer ∷ pointer ∷ size ∷ pointer ∷ pointer ∷ pointer ∷ u64 ∷ u64 ∷ enumeration ∷ u64
      ∷ pointer ∷ [];
  result = ssize;
}
collective_prototype gather = record {
  params =
      pointer ∷ pointer ∷ size ∷ pointer ∷ pointer ∷ pointer ∷ u64 ∷ u64 ∷ enumeration ∷ u64
      ∷ pointer ∷ [];
  result = ssize;
}
collective_prototype query_collective = record {
  params = pointer ∷ enumeration ∷ pointer ∷ u64 ∷ [];
  result = int;
}

pub collective_binding-Lists :
    (f : CollectiveInline) → Lists (collective_binding f) (collective_prototype f)
unfolding collective_binding collective_prototype
collective_binding-Lists av_set = (refl, refl)
collective_binding-Lists av_set_union = (refl, refl)
collective_binding-Lists av_set_intersect = (refl, refl)
collective_binding-Lists av_set_diff = (refl, refl)
collective_binding-Lists av_set_insert = (refl, refl)
collective_binding-Lists av_set_remove = (refl, refl)
collective_binding-Lists av_set_addr = (refl, refl)
collective_binding-Lists join_collective = (refl, refl)
collective_binding-Lists barrier = (refl, refl)
collective_binding-Lists broadcast = (refl, refl)
collective_binding-Lists alltoall = (refl, refl)
collective_binding-Lists allreduce = (refl, refl)
collective_binding-Lists allgather = (refl, refl)
collective_binding-Lists reduce_scatter = (refl, refl)
collective_binding-Lists reduce = (refl, refl)
collective_binding-Lists scatter = (refl, refl)
collective_binding-Lists gather = (refl, refl)
collective_binding-Lists query_collective = (refl, refl)
