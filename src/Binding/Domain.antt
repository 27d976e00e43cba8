-- ===== src/Binding/Domain.antt =====
-- src/XLibfabric/RDMA/FiDomain.hsc.helper.c, line by line, and the prototypes of include/fi_domain.h that it wraps.
use xlibfabric.Base.{[], ◌∷◌, refl}
use xlibfabric.Binding.Table.{int, pointer, size, u64, Binding, Prototype, Lists}

pub data DomainInline : Type 0 where
  domain domain_bind cq_open cntr_open wait_open poll_open mr_reg mr_regv mr_regattr : DomainInline
  mr_desc mr_key mr_raw_attr mr_map_raw mr_unmap_key mr_bind mr_refresh mr_enable : DomainInline
  av_open av_bind av_insert av_insertsvc av_insertsym av_remove av_lookup av_straddr : DomainInline
  rx_addr : DomainInline

pub domain_binding : DomainInline → Binding
domain_binding domain = record {
  arity = 4;
  types = pointer ∷ pointer ∷ pointer ∷ pointer ∷ int ∷ [];
}
domain_binding domain_bind = record { arity = 3; types = pointer ∷ pointer ∷ u64 ∷ int ∷ [] }
domain_binding cq_open = record {
  arity = 4;
  types = pointer ∷ pointer ∷ pointer ∷ pointer ∷ int ∷ [];
}
domain_binding cntr_open = record {
  arity = 4;
  types = pointer ∷ pointer ∷ pointer ∷ pointer ∷ int ∷ [];
}
domain_binding wait_open = record { arity = 3; types = pointer ∷ pointer ∷ pointer ∷ int ∷ [] }
domain_binding poll_open = record { arity = 3; types = pointer ∷ pointer ∷ pointer ∷ int ∷ [] }
domain_binding mr_reg = record {
  arity = 9;
  types = pointer ∷ pointer ∷ size ∷ u64 ∷ u64 ∷ u64 ∷ u64 ∷ pointer ∷ pointer ∷ int ∷ [];
}
domain_binding mr_regv = record {
  arity = 9;
  types = pointer ∷ pointer ∷ size ∷ u64 ∷ u64 ∷ u64 ∷ u64 ∷ pointer ∷ pointer ∷ int ∷ [];
}
domain_binding mr_regattr = record {
  arity = 4;
  types = pointer ∷ pointer ∷ u64 ∷ pointer ∷ int ∷ [];
}
domain_binding mr_desc = record { arity = 1; types = pointer ∷ pointer ∷ [] }
domain_binding mr_key = record { arity = 1; types = pointer ∷ u64 ∷ [] }
domain_binding mr_raw_attr = record {
  arity = 5;
  types = pointer ∷ pointer ∷ pointer ∷ pointer ∷ u64 ∷ int ∷ [];
}
domain_binding mr_map_raw = record {
  arity = 6;
  types = pointer ∷ u64 ∷ pointer ∷ size ∷ pointer ∷ u64 ∷ int ∷ [];
}
domain_binding mr_unmap_key = record { arity = 2; types = pointer ∷ u64 ∷ int ∷ [] }
domain_binding mr_bind = record { arity = 3; types = pointer ∷ pointer ∷ u64 ∷ int ∷ [] }
domain_binding mr_refresh = record { arity = 4; types = pointer ∷ pointer ∷ size ∷ u64 ∷ int ∷ [] }
domain_binding mr_enable = record { arity = 1; types = pointer ∷ int ∷ [] }
domain_binding av_open = record {
  arity = 4;
  types = pointer ∷ pointer ∷ pointer ∷ pointer ∷ int ∷ [];
}
domain_binding av_bind = record { arity = 3; types = pointer ∷ pointer ∷ u64 ∷ int ∷ [] }
domain_binding av_insert = record {
  arity = 6;
  types = pointer ∷ pointer ∷ size ∷ pointer ∷ u64 ∷ pointer ∷ int ∷ [];
}
domain_binding av_insertsvc = record {
  arity = 6;
  types = pointer ∷ pointer ∷ pointer ∷ pointer ∷ u64 ∷ pointer ∷ int ∷ [];
}
domain_binding av_insertsym = record {
  arity = 8;
  types = pointer ∷ pointer ∷ size ∷ pointer ∷ size ∷ pointer ∷ u64 ∷ pointer ∷ int ∷ [];
}
domain_binding av_remove = record { arity = 4; types = pointer ∷ pointer ∷ size ∷ u64 ∷ int ∷ [] }
domain_binding av_lookup = record {
  arity = 4;
  types = pointer ∷ u64 ∷ pointer ∷ pointer ∷ int ∷ [];
}
domain_binding av_straddr = record {
  arity = 4;
  types = pointer ∷ pointer ∷ pointer ∷ pointer ∷ pointer ∷ [];
}
domain_binding rx_addr = record { arity = 3; types = u64 ∷ int ∷ int ∷ u64 ∷ [] }

pub domain_prototype : DomainInline → Prototype
domain_prototype domain = record {
  params = pointer ∷ pointer ∷ pointer ∷ pointer ∷ [];
  result = int;
}
domain_prototype domain_bind = record { params = pointer ∷ pointer ∷ u64 ∷ []; result = int }
domain_prototype cq_open = record {
  params = pointer ∷ pointer ∷ pointer ∷ pointer ∷ [];
  result = int;
}
domain_prototype cntr_open = record {
  params = pointer ∷ pointer ∷ pointer ∷ pointer ∷ [];
  result = int;
}
domain_prototype wait_open = record { params = pointer ∷ pointer ∷ pointer ∷ []; result = int }
domain_prototype poll_open = record { params = pointer ∷ pointer ∷ pointer ∷ []; result = int }
domain_prototype mr_reg = record {
  params = pointer ∷ pointer ∷ size ∷ u64 ∷ u64 ∷ u64 ∷ u64 ∷ pointer ∷ pointer ∷ [];
  result = int;
}
domain_prototype mr_regv = record {
  params = pointer ∷ pointer ∷ size ∷ u64 ∷ u64 ∷ u64 ∷ u64 ∷ pointer ∷ pointer ∷ [];
  result = int;
}
domain_prototype mr_regattr = record {
  params = pointer ∷ pointer ∷ u64 ∷ pointer ∷ [];
  result = int;
}
domain_prototype mr_desc = record { params = pointer ∷ []; result = pointer }
domain_prototype mr_key = record { params = pointer ∷ []; result = u64 }
domain_prototype mr_raw_attr = record {
  params = pointer ∷ pointer ∷ pointer ∷ pointer ∷ u64 ∷ [];
  result = int;
}
domain_prototype mr_map_raw = record {
  params = pointer ∷ u64 ∷ pointer ∷ size ∷ pointer ∷ u64 ∷ [];
  result = int;
}
domain_prototype mr_unmap_key = record { params = pointer ∷ u64 ∷ []; result = int }
domain_prototype mr_bind = record { params = pointer ∷ pointer ∷ u64 ∷ []; result = int }
domain_prototype mr_refresh = record { params = pointer ∷ pointer ∷ size ∷ u64 ∷ []; result = int }
domain_prototype mr_enable = record { params = pointer ∷ []; result = int }
domain_prototype av_open = record {
  params = pointer ∷ pointer ∷ pointer ∷ pointer ∷ [];
  result = int;
}
domain_prototype av_bind = record { params = pointer ∷ pointer ∷ u64 ∷ []; result = int }
domain_prototype av_insert = record {
  params = pointer ∷ pointer ∷ size ∷ pointer ∷ u64 ∷ pointer ∷ [];
  result = int;
}
domain_prototype av_insertsvc = record {
  params = pointer ∷ pointer ∷ pointer ∷ pointer ∷ u64 ∷ pointer ∷ [];
  result = int;
}
domain_prototype av_insertsym = record {
  params = pointer ∷ pointer ∷ size ∷ pointer ∷ size ∷ pointer ∷ u64 ∷ pointer ∷ [];
  result = int;
}
domain_prototype av_remove = record { params = pointer ∷ pointer ∷ size ∷ u64 ∷ []; result = int }
domain_prototype av_lookup = record {
  params = pointer ∷ u64 ∷ pointer ∷ pointer ∷ [];
  result = int;
}
domain_prototype av_straddr = record {
  params = pointer ∷ pointer ∷ pointer ∷ pointer ∷ [];
  result = pointer;
}
domain_prototype rx_addr = record { params = u64 ∷ int ∷ int ∷ []; result = u64 }

pub domain_binding-Lists : (f : DomainInline) → Lists (domain_binding f) (domain_prototype f)
unfolding domain_binding domain_prototype
domain_binding-Lists domain = (refl, refl)
domain_binding-Lists domain_bind = (refl, refl)
domain_binding-Lists cq_open = (refl, refl)
domain_binding-Lists cntr_open = (refl, refl)
domain_binding-Lists wait_open = (refl, refl)
domain_binding-Lists poll_open = (refl, refl)
domain_binding-Lists mr_reg = (refl, refl)
domain_binding-Lists mr_regv = (refl, refl)
domain_binding-Lists mr_regattr = (refl, refl)
domain_binding-Lists mr_desc = (refl, refl)
domain_binding-Lists mr_key = (refl, refl)
domain_binding-Lists mr_raw_attr = (refl, refl)
domain_binding-Lists mr_map_raw = (refl, refl)
domain_binding-Lists mr_unmap_key = (refl, refl)
domain_binding-Lists mr_bind = (refl, refl)
domain_binding-Lists mr_refresh = (refl, refl)
domain_binding-Lists mr_enable = (refl, refl)
domain_binding-Lists av_open = (refl, refl)
domain_binding-Lists av_bind = (refl, refl)
domain_binding-Lists av_insert = (refl, refl)
domain_binding-Lists av_insertsvc = (refl, refl)
domain_binding-Lists av_insertsym = (refl, refl)
domain_binding-Lists av_remove = (refl, refl)
domain_binding-Lists av_lookup = (refl, refl)
domain_binding-Lists av_straddr = (refl, refl)
domain_binding-Lists rx_addr = (refl, refl)
