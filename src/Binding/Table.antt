-- ===== src/Binding/Table.antt =====
-- src/XLibfabric/RDMA/*.hsc.helper.c: what a line `BC_INLINEn(name, types…, result)` says, and what it
-- should say. BC_INLINEn is a macro of the package bindings-DSL, which takes a name, n argument types and
-- a result type.
use xlibfabric.Base.{ℕ, ◌+◌, ◌≡◌, Bool, true, false, ◌||◌, List, [], ◌∷◌, ◌++◌, length}

-- The C types of arguments and results, up to what a pointer points at. `fi_addr_t` is `uint64_t`, and
-- `fid_t` is a pointer.
pub data CType : Type 0 where
  pointer size ssize u64 u32 u8 int enumeration : CType

-- The number in the macro's name, and the types that follow the function's name.
pub record Binding : Type 0 where
  pub arity : ℕ
  pub types : List CType

pub record Prototype : Type 0 where
  pub params : List CType
  pub result : CType

abbrev pub is_enum : CType → Bool
is_enum enumeration = true
is_enum _ = false

abbrev pub has_enum : List CType → Bool
has_enum [] = false
has_enum (t ∷ ts) = is_enum t || has_enum ts

-- The types that are not enumerations.
abbrev pub without_enums : List CType → List CType
without_enums [] = []
without_enums (enumeration ∷ ts) = without_enums ts
without_enums (t ∷ ts) = t ∷ without_enums ts

-- The macro has as many types as it takes.
abbrev pub IsComplete : Binding → Type 0
IsComplete b = length b.types ≡ b.arity + 1

-- The line counts all arguments, and lists those that are not enumerations and the result.
abbrev pub Lists : Binding → Prototype → Type 0
Lists b p = (b.arity ≡ length p.params) × (b.types ≡ without_enums p.params ++ p.result ∷ [])
