-- ===== src/Machine.antt =====
-- The C machine under the inline functions of include/: memory as cells, a stack pointer,
-- and the functions of a provider behind their addresses. The layout is that of LP64: a pointer,
-- a `size_t` and a `uint64_t` fill a cell each, and so does a field of 4 bytes, at its own address.
pub mod Dispatch
pub mod Locals
pub mod Outcomes
use mathlib.Core.Option
use xlibfabric.Base.{ℕ, ◌+◌, ◌-◌, Option, none, some, List, ◌==◌, if◌then◌else◌, ℤ}

abbrev pub Cells : Type 0
Cells = ℕ → Option ℕ

-- What a provider's function does with its argument words: it returns a C integer and leaves a
-- memory behind, or it does not return (`none`).
abbrev pub Method : Type 0
Method = List ℕ → Cells → Option (ℤ × Cells)

-- What lies outside the repository: the code behind each function address, the address of
-- libfabric's `fi_dupinfo`, the value that <errno.h> gives ENOSYS, and the allocator of the Haskell
-- runtime, which gives the address of a block and keeps its books in memory.
pub record Host : Type 0 where
  pub call : ℕ → Method
  pub fi_dupinfo : ℕ
  pub enosys : ℕ
  pub allocate : (bytes : ℕ) → Cells → ℕ × Cells

pub record State : Type 0 where
  pub cell : Cells
  pub sp : ℕ

-- `none` is undefined behaviour: a null or unmapped access, or a call through a null pointer.
abbrev pub M : Type 0 → Type 0
M A = State → Option (A × State)

abbrev pub pure : {A : Type 0} → A → M A
pure a s = some (a, s)

infixl 5 ◌>>=◌ ◌>>◌
abbrev pub ◌>>=◌ : {A B : Type 0} → M A → (A → M B) → M B
◌>>=◌ m f s = elim (m s) [ none ↦ none | some (a, s') ↦ f a s' ]

abbrev pub ◌>>◌ : {B : Type 0} → M (Unit {0}) → M B → M B
m >> k = m >>= λ _. k

abbrev pub update : Cells → ℕ → ℕ → Cells
update c p v q = if p == q then some v else c q

-- A struct by its fields: `offsetof(type, field)` and `sizeof(type)`.
pub record Struct (F : Type 0) : Type 0 where
  pub offset : F → ℕ
  pub bytes : ℕ

abbrev pub offsetof : {F : Type 0} ⦃layout : Struct F⦄ → F → ℕ
offsetof ⦃layout⦄ = layout.offset

-- `sizeof(F)`.
abbrev pub sizeof : (F : Type 0) ⦃layout : Struct F⦄ → ℕ
sizeof F ⦃layout⦄ = layout.bytes

-- `&p->f`, and `container_of(p, type, f)`, which is its inverse.
abbrev pub addr_of : {F : Type 0} ⦃layout : Struct F⦄ → ℕ → F → ℕ
addr_of ⦃layout⦄ p f = p + layout.offset f

abbrev pub container_of : {F : Type 0} ⦃layout : Struct F⦄ → ℕ → F → ℕ
container_of ⦃layout⦄ p f = p - layout.offset f

-- `p[off]` in bytes.
unfoldable pub load : ℕ → ℕ → M ℕ
load p off s = if p == 0 then none else Option.map (λ v. (v, s)) (s.cell (p + off))

-- `*p = v`.
unfoldable pub store : ℕ → ℕ → M (Unit {0})
store p v s =
    if p == 0
    then none
    else Option.map (λ _. (tt, record s { cell = update s.cell p v })) (s.cell p)

-- A local variable of `size` bytes: its address, while the body runs.
unfoldable pub frame : {A : Type 0} → ℕ → (ℕ → M A) → M A
frame size body s = elim (body (s.sp - size) (record s { sp = s.sp - size })) [
  | none ↦ none
  | some (a, s') ↦ some (a, record s' { sp = s.sp })
]

-- An assignment to a local variable: the stack is always mapped.
unfoldable pub assign : ℕ → ℕ → M (Unit {0})
assign p v s = some (tt, record s { cell = update s.cell p v })

module _ (host : Host) where
  -- Haskell's `alloca` and `allocaArray`: a block of the runtime's heap, at whatever address.
  unfoldable pub alloca : {A : Type 0} → (bytes : ℕ) → (ℕ → M A) → M A
  alloca bytes body s =
      let block = host.allocate bytes s.cell in body block.0 (record s { cell = block.1 })

  -- A call through a function pointer.
  unfoldable pub invoke : ℕ → List ℕ → M ℤ
  invoke fn args s = if fn == 0 then none else elim (host.call fn args s.cell) [
    | none ↦ none
    | some (r, c) ↦ some (r, record s { cell = c })
  ]

  -- `obj->table->slot(args)`.
  unfoldable pub vcall :
      {F G : Type 0} ⦃obj_layout : Struct F⦄ ⦃ops_layout : Struct G⦄ → ℕ → F → G → List ℕ → M ℤ
  vcall obj table slot args = do
    ops ← load obj (offsetof table)
    fn ← load ops (offsetof slot)
    invoke fn args
