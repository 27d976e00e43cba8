-- ===== src/Binding.antt =====
-- src/XLibfabric/RDMA/*.hsc.helper.c: the wrappers that make the inline functions of include/ linkable.
pub mod Table
pub mod Fabric
pub mod Atomic
pub mod Cm
pub mod Collective
pub mod Domain
pub mod Endpoint
pub mod Eq
pub mod Rma
pub mod Tagged
pub mod Complete
use Fabric.{FabricInline, fabric_binding, fabric_prototype}
use Atomic.{AtomicInline, atomic_binding, atomic_prototype}
use Cm.{CmInline, cm_binding, cm_prototype}
use Collective.{CollectiveInline, collective_binding, collective_prototype}
use Domain.{DomainInline, domain_binding, domain_prototype}
use Endpoint.{EndpointInline, endpoint_binding, endpoint_prototype}
use Eq.{EqInline, eq_binding, eq_prototype}
use Rma.{RmaInline, rma_binding, rma_prototype}
use Tagged.{TaggedInline, tagged_binding, tagged_prototype}
use Table.{Binding, Prototype}

-- The inline functions that have a line, by header.
pub data Inline : Type 0 where
  of_fabric : FabricInline → Inline
  of_atomic : AtomicInline → Inline
  of_cm : CmInline → Inline
  of_collective : CollectiveInline → Inline
  of_domain : DomainInline → Inline
  of_endpoint : EndpointInline → Inline
  of_eq : EqInline → Inline
  of_rma : RmaInline → Inline
  of_tagged : TaggedInline → Inline

unfoldable pub binding : Inline → Binding
binding (of_fabric f) = fabric_binding f
binding (of_atomic f) = atomic_binding f
binding (of_cm f) = cm_binding f
binding (of_collective f) = collective_binding f
binding (of_domain f) = domain_binding f
binding (of_endpoint f) = endpoint_binding f
binding (of_eq f) = eq_binding f
binding (of_rma f) = rma_binding f
binding (of_tagged f) = tagged_binding f

unfoldable pub prototype : Inline → Prototype
prototype (of_fabric f) = fabric_prototype f
prototype (of_atomic f) = atomic_prototype f
prototype (of_cm f) = cm_prototype f
prototype (of_collective f) = collective_prototype f
prototype (of_domain f) = domain_prototype f
prototype (of_endpoint f) = endpoint_prototype f
prototype (of_eq f) = eq_prototype f
prototype (of_rma f) = rma_prototype f
prototype (of_tagged f) = tagged_prototype f
