-- ===== src/Binding/Endpoint.antt =====
-- src/XLibfabric/RDMA/FiEndpoint.hsc.helper.c, line by line, and the prototypes of include/fi_endpoint.h that it wraps.
use xlibfabric.Base.{[], ◌∷◌, refl}
use xlibfabric.Binding.Table.{int, pointer, size, ssize, u64, Binding, Prototype, Lists}

pub data EndpointInline : Type 0 where
  passive_ep endpoint scalable_ep ep_bind pep_bind scalable_ep_bind enable cancel : EndpointInline
  setopt getopt ep_alias tx_context rx_context rx_size_left tx_size_left stx_context :
      EndpointInline
  srx_context recv recvv recvmsg send sendv sendmsg inject senddata injectdata : EndpointInline

pub endpoint_binding : EndpointInline → Binding
endpoint_binding passive_ep = record {
  arity = 4;
  types = pointer ∷ pointer ∷ pointer ∷ pointer ∷ int ∷ [];
}
endpoint_binding endpoint = record {
  arity = 4;
  types = pointer ∷ pointer ∷ pointer ∷ pointer ∷ int ∷ [];
}
endpoint_binding scalable_ep = record {
  arity = 4;
  types = pointer ∷ pointer ∷ pointer ∷ pointer ∷ int ∷ [];
}
endpoint_binding ep_bind = record { arity = 3; types = pointer ∷ pointer ∷ u64 ∷ int ∷ [] }
endpoint_binding pep_bind = record { arity = 3; types = pointer ∷ pointer ∷ u64 ∷ int ∷ [] }
endpoint_binding scalable_ep_bind = record { arity = 3; types = pointer ∷ pointer ∷ u64 ∷ int ∷ [] }
endpoint_binding enable = record { arity = 1; types = pointer ∷ int ∷ [] }
endpoint_binding cancel = record { arity = 2; types = pointer ∷ pointer ∷ ssize ∷ [] }
endpoint_binding setopt = record {
  arity = 5;
  types = pointer ∷ int ∷ int ∷ pointer ∷ size ∷ int ∷ [];
}
endpoint_binding getopt = record {
  arity = 5;
  types = pointer ∷ int ∷ int ∷ pointer ∷ pointer ∷ int ∷ [];
}
endpoint_binding ep_alias = record { arity = 3; types = pointer ∷ pointer ∷ u64 ∷ int ∷ [] }
endpoint_binding tx_context = record {
  arity = 5;
  types = pointer ∷ int ∷ pointer ∷ pointer ∷ pointer ∷ int ∷ [];
}
endpoint_binding rx_context = record {
  arity = 5;
  types = pointer ∷ int ∷ pointer ∷ pointer ∷ pointer ∷ int ∷ [];
}
endpoint_binding rx_size_left = record { arity = 1; types = pointer ∷ ssize ∷ [] }
endpoint_binding tx_size_left = record { arity = 1; types = pointer ∷ ssize ∷ [] }
endpoint_binding stx_context = record {
  arity = 4;
  types = pointer ∷ pointer ∷ pointer ∷ pointer ∷ int ∷ [];
}
endpoint_binding srx_context = record {
  arity = 4;
  types = pointer ∷ pointer ∷ pointer ∷ pointer ∷ int ∷ [];
}
endpoint_binding recv = record {
  arity = 6;
  types = pointer ∷ pointer ∷ size ∷ pointer ∷ u64 ∷ pointer ∷ ssize ∷ [];
}
endpoint_binding recvv = record {
  arity = 6;
  types = pointer ∷ pointer ∷ pointer ∷ size ∷ u64 ∷ pointer ∷ ssize ∷ [];
}
endpoint_binding recvmsg = record { arity = 3; types = pointer ∷ pointer ∷ u64 ∷ ssize ∷ [] }
endpoint_binding send = record {
  arity = 6;
  types = pointer ∷ pointer ∷ size ∷ pointer ∷ u64 ∷ pointer ∷ ssize ∷ [];
}
endpoint_binding sendv = record {
  arity = 6;
  types = pointer ∷ pointer ∷ pointer ∷ size ∷ u64 ∷ pointer ∷ ssize ∷ [];
}
endpoint_binding sendmsg = record { arity = 3; types = pointer ∷ pointer ∷ u64 ∷ ssize ∷ [] }
endpoint_binding inject = record { arity = 4; types = pointer ∷ pointer ∷ size ∷ u64 ∷ ssize ∷ [] }
endpoint_binding senddata = record {
  arity = 7;
  types = pointer ∷ pointer ∷ size ∷ pointer ∷ u64 ∷ u64 ∷ pointer ∷ ssize ∷ [];
}
endpoint_binding injectdata = record {
  arity = 5;
  types = pointer ∷ pointer ∷ size ∷ u64 ∷ u64 ∷ ssize ∷ [];
}

pub endpoint_prototype : EndpointInline → Prototype
endpoint_prototype passive_ep = record {
  params = pointer ∷ pointer ∷ pointer ∷ pointer ∷ [];
  result = int;
}
endpoint_prototype endpoint = record {
  params = pointer ∷ pointer ∷ pointer ∷ pointer ∷ [];
  result = int;
}
endpoint_prototype scalable_ep = record {
  params = pointer ∷ pointer ∷ pointer ∷ pointer ∷ [];
  result = int;
}
endpoint_prototype ep_bind = record { params = pointer ∷ pointer ∷ u64 ∷ []; result = int }
endpoint_prototype pep_bind = record { params = pointer ∷ pointer ∷ u64 ∷ []; result = int }
endpoint_prototype scalable_ep_bind = record { params = pointer ∷ pointer ∷ u64 ∷ []; result = int }
endpoint_prototype enable = record { params = pointer ∷ []; result = int }
endpoint_prototype cancel = record { params = pointer ∷ pointer ∷ []; result = ssize }
endpoint_prototype setopt = record {
  params = pointer ∷ int ∷ int ∷ pointer ∷ size ∷ [];
  result = int;
}
endpoint_prototype getopt = record {
  params = pointer ∷ int ∷ int ∷ pointer ∷ pointer ∷ [];
  result = int;
}
endpoint_prototype ep_alias = record { params = pointer ∷ pointer ∷ u64 ∷ []; result = int }
endpoint_prototype tx_context = record {
  params = pointer ∷ int ∷ pointer ∷ pointer ∷ pointer ∷ [];
  result = int;
}
endpoint_prototype rx_context = record {
  params = pointer ∷ int ∷ pointer ∷ pointer ∷ pointer ∷ [];
  result = int;
}
endpoint_prototype rx_size_left = record { params = pointer ∷ []; result = ssize }
endpoint_prototype tx_size_left = record { params = pointer ∷ []; result = ssize }
endpoint_prototype stx_context = record {
  params = pointer ∷ pointer ∷ pointer ∷ pointer ∷ [];
  result = int;
}
endpoint_prototype srx_context = record {
  params = pointer ∷ pointer ∷ pointer ∷ pointer ∷ [];
  result = int;
}
endpoint_prototype recv = record {
  params = pointer ∷ pointer ∷ size ∷ pointer ∷ u64 ∷ pointer ∷ [];
  result = ssize;
}
endpoint_prototype recvv = record {
  params = pointer ∷ pointer ∷ pointer ∷ size ∷ u64 ∷ pointer ∷ [];
  result = ssize;
}
endpoint_prototype recvmsg = record { params = pointer ∷ pointer ∷ u64 ∷ []; result = ssize }
endpoint_prototype send = record {
  params = pointer ∷ pointer ∷ size ∷ pointer ∷ u64 ∷ pointer ∷ [];
  result = ssize;
}
endpoint_prototype sendv = record {
  params = pointer ∷ pointer ∷ pointer ∷ size ∷ u64 ∷ pointer ∷ [];
  result = ssize;
}
endpoint_prototype sendmsg = record { params = pointer ∷ pointer ∷ u64 ∷ []; result = ssize }
endpoint_prototype inject = record { params = pointer ∷ pointer ∷ size ∷ u64 ∷ []; result = ssize }
endpoint_prototype senddata = record {
  params = pointer ∷ pointer ∷ size ∷ pointer ∷ u64 ∷ u64 ∷ pointer ∷ [];
  result = ssize;
}
endpoint_prototype injectdata = record {
  params = pointer ∷ pointer ∷ size ∷ u64 ∷ u64 ∷ [];
  result = ssize;
}

pub endpoint_binding-Lists :
    (f : EndpointInline) → Lists (endpoint_binding f) (endpoint_prototype f)
unfolding endpoint_binding endpoint_prototype
endpoint_binding-Lists passive_ep = (refl, refl)
endpoint_binding-Lists endpoint = (refl, refl)
endpoint_binding-Lists scalable_ep = (refl, refl)
endpoint_binding-Lists ep_bind = (refl, refl)
endpoint_binding-Lists pep_bind = (refl, refl)
endpoint_binding-Lists scalable_ep_bind = (refl, refl)
endpoint_binding-Lists enable = (refl, refl)
endpoint_binding-Lists cancel = (refl, refl)
endpoint_binding-Lists setopt = (refl, refl)
endpoint_binding-Lists getopt = (refl, refl)
endpoint_binding-Lists ep_alias = (refl, refl)
endpoint_binding-Lists tx_context = (refl, refl)
endpoint_binding-Lists rx_context = (refl, refl)
endpoint_binding-Lists rx_size_left = (refl, refl)
endpoint_binding-Lists tx_size_left = (refl, refl)
endpoint_binding-Lists stx_context = (refl, refl)
endpoint_binding-Lists srx_context = (refl, refl)
endpoint_binding-Lists recv = (refl, refl)
endpoint_binding-Lists recvv = (refl, refl)
endpoint_binding-Lists recvmsg = (refl, refl)
endpoint_binding-Lists send = (refl, refl)
endpoint_binding-Lists sendv = (refl, refl)
endpoint_binding-Lists sendmsg = (refl, refl)
endpoint_binding-Lists inject = (refl, refl)
endpoint_binding-Lists senddata = (refl, refl)
endpoint_binding-Lists injectdata = (refl, refl)
