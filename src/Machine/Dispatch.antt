-- ===== src/Machine/Dispatch.antt =====
-- What a call through a table of function pointers means, with no address of a function in it.
use xlibfabric.Base.{ℕ, ◌+◌, ◌≡◌, ◌≢◌, ap, ◌∙◌, Option, none, some, List, arith, ℤ}
use xlibfabric.Machine.{
  Host, State, Method, M, Struct, offsetof, addr_of, container_of, load, store, update, invoke,
  vcall, ◌>>=◌,
}

-- The entry of a table as its methods: a null entry cannot be called.
abbrev pub perform : Option Method → List ℕ → M ℤ
perform none args s = none
perform (some m) args s = elim (m args s.cell) [
  | none ↦ none
  | some (r, c) ↦ some (r, record s { cell = c })
]

-- The pointer `fn` stands for the method `m` of an abstract table.
abbrev pub Binds : Host → ℕ → Option Method → Type 0
Binds host fn none = fn ≡ 0
Binds host fn (some m) = (fn ≢ 0) × (host.call fn ≡ m)

-- In the memory of `s`, the field `table` of the struct at `obj` points at a table whose entries
-- are the abstract methods.
pub record Represents {F G : Type 0} ⦃obj_layout : Struct F⦄ ⦃ops_layout : Struct G⦄ (host : Host)
    (s : State) (obj : ℕ) (table : F) (methods : G → Option Method) : Type 0 where
  pub ops : ℕ
  pub entry : G → ℕ
  pub obj_mapped : obj ≢ 0
  pub ops_mapped : ops ≢ 0
  pub points : s.cell (obj + offsetof table) ≡ some ops
  pub holds : (k : G) → s.cell (ops + offsetof k) ≡ some (entry k)
  pub binds : (k : G) → Binds host (entry k) (methods k)

pub container_of-addr_of :
    {F : Type 0} ⦃layout : Struct F⦄ (p : ℕ) (f : F) → container_of (addr_of p f) f ≡ p
container_of-addr_of p f = omega arith

pub invoke-perform :
    (host : Host) (fn : ℕ) (m : Option Method) (args : List ℕ) (s : State)
    → Binds host fn m
    → invoke host fn args s ≡ perform m args s
unfolding invoke
invoke-perform host fn none args s b = rw b
invoke-perform host fn (some m) args s b =
    ground (arith, b.0, ap (λ (g : Method). g args s.cell) b.1)

pub >>=-some :
    {A B : Type 0} (m : M A) (f : A → M B) {a : A} {s s' : State}
    → m s ≡ some (a, s')
    → (m >>= f) s ≡ f a s'
>>=-some m f e = rw (e, ◌>>=◌)

pub load-some :
    (p off v : ℕ) (s : State) → p ≢ 0 → s.cell (p + off) ≡ some v → load p off s ≡ some (v, s)
unfolding load
load-some p off v s mapped e = ground arith

pub store-some :
    (p v old : ℕ) (s : State)
    → p ≢ 0
    → s.cell p ≡ some old
    → store p v s ≡ some (tt, record s { cell = update s.cell p v })
unfolding store
store-some p v old s mapped e = ground arith

module _ {F G : Type 0} ⦃obj_layout : Struct F⦄ ⦃ops_layout : Struct G⦄ {host : Host} {s : State}
    {obj : ℕ} {table : F} {methods : G → Option Method}
    (r : Represents host s obj table methods) where
  pub vcall-perform :
      (k : G) (args : List ℕ) → vcall host obj table k args s ≡ perform (methods k) args s
  unfolding vcall
  vcall-perform k args =
      >>=-some (load obj (offsetof table)) _
        (load-some obj (offsetof table) r.ops s r.obj_mapped r.points)
      ∙ >>=-some (load r.ops (offsetof k)) _
          (load-some r.ops (offsetof k) (r.entry k) s r.ops_mapped (r.holds k))
      ∙ invoke-perform host (r.entry k) (methods k) args s (r.binds k)
