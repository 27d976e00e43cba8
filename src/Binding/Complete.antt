-- ===== src/Binding/Complete.antt =====
-- Which wrappers have all the types that their macro takes.
use xlibfabric.Base.{
  suc, ◌≤◌, ◌≡◌, refl, ap, ◌∙◌, ◌↔◌, Bool, false, List, [], ◌∷◌, length, length-append, arith,
}
use xlibfabric.Binding.Table.{
  CType, pointer, size, ssize, u64, u32, u8, int, enumeration, has_enum, without_enums, IsComplete,
  Lists,
}
use xlibfabric.Binding.{
  Inline, binding, prototype, of_fabric, of_atomic, of_cm, of_collective, of_domain, of_endpoint,
  of_eq, of_rma, of_tagged,
}
use xlibfabric.Binding.Fabric.{fabric_binding-Lists}
use xlibfabric.Binding.Atomic.{atomic_binding-Lists}
use xlibfabric.Binding.Cm.{cm_binding-Lists}
use xlibfabric.Binding.Collective.{collective_binding-Lists}
use xlibfabric.Binding.Domain.{domain_binding-Lists}
use xlibfabric.Binding.Endpoint.{endpoint_binding-Lists}
use xlibfabric.Binding.Eq.{eq_binding-Lists}
use xlibfabric.Binding.Rma.{rma_binding-Lists}
use xlibfabric.Binding.Tagged.{tagged_binding-Lists}

without_enums-length-le : (ts : List CType) → length (without_enums ts) ≤ length ts
without_enums-length-le [] = omega arith
without_enums-length-le (pointer ∷ ts) = omega (arith, without_enums-length-le ts)
without_enums-length-le (size ∷ ts) = omega (arith, without_enums-length-le ts)
without_enums-length-le (ssize ∷ ts) = omega (arith, without_enums-length-le ts)
without_enums-length-le (u64 ∷ ts) = omega (arith, without_enums-length-le ts)
without_enums-length-le (u32 ∷ ts) = omega (arith, without_enums-length-le ts)
without_enums-length-le (u8 ∷ ts) = omega (arith, without_enums-length-le ts)
without_enums-length-le (int ∷ ts) = omega (arith, without_enums-length-le ts)
without_enums-length-le (enumeration ∷ ts) = omega (arith, without_enums-length-le ts)

-- A type that is kept makes no difference.
keep_type :
    (kept ts : List CType) (b : Bool)
    → ((length kept ≡ length ts) ↔ (b ≡ false))
    → ((suc (length kept) ≡ suc (length ts)) ↔ (b ≡ false))
keep_type kept ts b rest = (λ e. rest.0 (omega arith), λ e. ap suc (rest.1 e))

-- Nothing is left out exactly where there is no enumeration.
has_enum-length :
    (ts : List CType) → (length (without_enums ts) ≡ length ts) ↔ (has_enum ts ≡ false)
has_enum-length [] = (λ e. refl, λ e. refl)
has_enum-length (pointer ∷ ts) = keep_type (without_enums ts) ts (has_enum ts) (has_enum-length ts)
has_enum-length (size ∷ ts) = keep_type (without_enums ts) ts (has_enum ts) (has_enum-length ts)
has_enum-length (ssize ∷ ts) = keep_type (without_enums ts) ts (has_enum ts) (has_enum-length ts)
has_enum-length (u64 ∷ ts) = keep_type (without_enums ts) ts (has_enum ts) (has_enum-length ts)
has_enum-length (u32 ∷ ts) = keep_type (without_enums ts) ts (has_enum ts) (has_enum-length ts)
has_enum-length (u8 ∷ ts) = keep_type (without_enums ts) ts (has_enum ts) (has_enum-length ts)
has_enum-length (int ∷ ts) = keep_type (without_enums ts) ts (has_enum ts) (has_enum-length ts)
has_enum-length (enumeration ∷ ts) =
    (λ e. absurd (omega (arith, without_enums-length-le ts)), λ e. cc)

binding-Lists : (f : Inline) → Lists (binding f) (prototype f)
unfolding binding prototype
binding-Lists (of_fabric f) = fabric_binding-Lists f
binding-Lists (of_atomic f) = atomic_binding-Lists f
binding-Lists (of_cm f) = cm_binding-Lists f
binding-Lists (of_collective f) = collective_binding-Lists f
binding-Lists (of_domain f) = domain_binding-Lists f
binding-Lists (of_endpoint f) = endpoint_binding-Lists f
binding-Lists (of_eq f) = eq_binding-Lists f
binding-Lists (of_rma f) = rma_binding-Lists f
binding-Lists (of_tagged f) = tagged_binding-Lists f

-- Each of the wrappers counts all arguments of its function, in the macro's name, but lists only those
-- whose type is not an enumeration, in order, and then the result's type; so it has all the types that
-- the macro takes exactly if no argument of the function is an enumeration.
pub binding-IsComplete :
    (f : Inline)
    → Lists (binding f) (prototype f)
      × (IsComplete (binding f) ↔ (has_enum (prototype f).params ≡ false))
binding-IsComplete f =
    let (counts, lists) = binding-Lists f in
    let kept = has_enum-length (prototype f).params in
    let sum =
      ap length lists
      ∙ length-append (without_enums (prototype f).params) ((prototype f).result ∷ []) in
    ((counts, lists), (λ e. kept.0 (omega arith), λ e. omega (arith, kept.1 e)))
