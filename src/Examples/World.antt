-- ===== src/Examples/World.antt =====
-- A concrete memory and provider, at which the theorems on calls are run: a pointer to a table
-- points 1000 bytes behind the field that holds it, and so does an entry to its function.
use xlibfabric.Base.{
  ℕ, ◌+◌, ◌≢◌, ◌≡◌, refl, ◌<◌, true, ltb, none, inl, if◌then◌else◌, Option, some, List, [], ◌∷◌,
  arith, pos,
}
use xlibfabric.Machine.{Cells, Host, State, Method, Struct, offsetof, update}
use xlibfabric.Machine.Dispatch.{Represents}
use xlibfabric.Machine.Locals.{Keeps}
use xlibfabric.Fabric.Layout.{Fid, FiOps, fid_layout, fi_ops_layout}
use xlibfabric.Fabric.Optional.{Offers}

-- Every function leaves a digest of its arguments at address 8 and returns its own address.
abbrev pub digest : List ℕ → ℕ
digest [] = 0
digest (x ∷ xs) = x + (digest xs + digest xs)

-- An allocator that gives block after block; the word at 1 says how many bytes it has given.
abbrev pub bump : (bytes : ℕ) → Cells → ℕ × Cells
bump bytes c = elim (c 1) [
  | none ↦ (200000, update c 1 bytes)
  | some given ↦ (200000 + given, update c 1 (given + bytes))
]

abbrev pub demo_host : Host
demo_host = record {
  call = λ fn args c. some (pos fn, update c 8 (digest args));
  fi_dupinfo = 7;
  enosys = 38;
  allocate = bump;
}

abbrev pub demo : State
demo = record { cell = λ q. some (q + 1000); sp = 100000 }

-- The abstract methods of a table of the demonstration memory, for any host.
abbrev pub methods_of :
    {F G : Type 0} ⦃obj_layout : Struct F⦄ ⦃ops_layout : Struct G⦄
    → Host
    → ℕ
    → F
    → G
    → Option Method
methods_of host obj table k = some (host.call (obj + offsetof table + 1000 + offsetof k + 1000))

abbrev pub provider :
    {F G : Type 0} ⦃obj_layout : Struct F⦄ ⦃ops_layout : Struct G⦄ → ℕ → F → G → Option Method
provider = methods_of demo_host

pub represents :
    {F G : Type 0} ⦃obj_layout : Struct F⦄ ⦃ops_layout : Struct G⦄ (host : Host) (obj : ℕ)
    (table : F)
    → obj ≢ 0
    → Represents host demo obj table (methods_of {G = G} host obj table)
represents host obj table mapped = record {
  ops = obj + offsetof table + 1000;
  entry = λ k. obj + offsetof table + 1000 + offsetof k + 1000;
  obj_mapped = mapped;
  ops_mapped = omega arith;
  points = refl;
  holds = λ k. refl;
  binds = λ k. (omega arith, refl);
}

pub demo-Represents :
    {F G : Type 0} ⦃obj_layout : Struct F⦄ ⦃ops_layout : Struct G⦄ (obj : ℕ) (table : F)
    → obj ≢ 0
    → Represents demo_host demo obj table (provider {G = G} obj table)
demo-Represents = represents demo_host

-- An operations table ends well within a thousand bytes.
fi_ops_low : (k : FiOps) → offsetof k < 1000
fi_ops_low FiOps.close = omega arith
fi_ops_low FiOps.bind = omega arith
fi_ops_low FiOps.control = omega arith
fi_ops_low FiOps.ops_open = omega arith
fi_ops_low FiOps.tostr = omega arith
fi_ops_low FiOps.ops_set = omega arith

-- An object that lies low keeps its operations while a caller uses the stack.
pub keeps :
    (host : Host) (n obj : ℕ)
    → obj ≢ 0
    → obj < 1000
    → n < 1000
    → Keeps n host demo obj Fid.ops (methods_of {G = FiOps} host obj Fid.ops)
unfolding represents
keeps host n obj mapped low small = record {
  rep = represents host obj Fid.ops mapped;
  room = omega arith;
  obj_apart = inl (omega arith);
  ops_apart = λ k. inl (omega (arith, fi_ops_low k));
}

-- A table as long as its first word says; a method behind the end is missing.
abbrev pub offered :
    {F G : Type 0} ⦃obj_layout : Struct F⦄ ⦃ops_layout : Struct G⦄ → ℕ → F → G → Option Method
offered obj table k =
    if ltb (offsetof k) (obj + offsetof table + 2000) then provider obj table k else none

unfoldable pub demo-Offers :
    {F G : Type 0} ⦃obj_layout : Struct F⦄ ⦃ops_layout : Struct G⦄ (obj : ℕ) (table : F)
    → obj ≢ 0
    → Offers demo_host demo obj table (offered {G = G} obj table)
demo-Offers obj table mapped = record {
  ops = obj + offsetof table + 1000;
  size = obj + offsetof table + 1000 + 1000;
  entry = λ k. obj + offsetof table + 1000 + offsetof k + 1000;
  obj_mapped = mapped;
  points = refl;
  absent = λ null. absurd (omega arith);
  sized = λ _. ground arith;
  cut = λ k outside. ground arith;
  holds = λ _ k inside. refl;
  binds = λ _ k inside.
      let e : ltb (offsetof k) (obj + offsetof table + 2000) ≡ true = ground arith in
      rw e (omega arith, refl);
}

-- A memory of zeros, in which every table is null.
abbrev pub bare : State
bare = record { cell = λ q. some 0; sp = 100000 }

abbrev pub nothing : {G : Type 0} → G → Option Method
nothing k = none

pub bare-Offers :
    {F G : Type 0} ⦃obj_layout : Struct F⦄ ⦃ops_layout : Struct G⦄ (obj : ℕ) (table : F)
    → obj ≢ 0
    → Offers demo_host bare obj table (nothing {G = G})
bare-Offers obj table mapped = record {
  ops = 0;
  size = 0;
  entry = λ k. 0;
  obj_mapped = mapped;
  points = refl;
  absent = λ null k. refl;
  sized = λ some_table. absurd (some_table refl);
  cut = λ k outside. refl;
  holds = λ some_table k inside. absurd (some_table refl);
  binds = λ some_table k inside. absurd (some_table refl);
}
