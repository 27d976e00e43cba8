-- ===== src/Machine/Locals.antt =====
-- Calls that pass the address of a local variable: the struct lies below the stack pointer, and
-- what lies elsewhere is as the caller left it.
use xlibfabric.Base.{ℕ, ◌+◌, ◌-◌, ◌≤◌, ◌<◌, ◌≡◌, refl, ◌∙◌, ◌⊎◌, Option, none, some, List, arith, ℤ}
use xlibfabric.Machine.{Host, State, Cells, Method, M, Struct, offsetof, update, frame, vcall}
use xlibfabric.Machine.Dispatch.{Represents, perform, vcall-perform}

-- The address `q` lies outside the `n` bytes at `lo`.
abbrev pub Apart : ℕ → ℕ → ℕ → Type 0
Apart lo n q = (q < lo) ⊎ (lo + n ≤ q)

-- The memories are the same outside the `n` bytes at `lo`.
abbrev pub Agree : ℕ → ℕ → Cells → Cells → Type 0
Agree lo n c d = (q : ℕ) → Apart lo n q → d q ≡ c q

pub Agree-refl : (lo n : ℕ) (c : Cells) → Agree lo n c c
Agree-refl lo n c q out = refl

pub Agree-update :
    (lo n : ℕ) (c d : Cells) (p v : ℕ)
    → lo ≤ p
    → p < lo + n
    → Agree lo n c d
    → Agree lo n c (update d p v)
Agree-update lo n c d p v low high same q out = ground (arith, same q out)

-- The entry of a table as a function: a null entry gives no result.
abbrev pub apply : Option Method → Method
apply none args c = none
apply (some m) args c = m args c

-- A call has returned: the stack pointer is the caller's, the memory what the call left.
abbrev pub finish : State → Option (ℤ × Cells) → Option (ℤ × State)
finish s none = none
finish s (some (r, c)) = some (r, record s { cell = c })

-- The abstract methods of an object, for a caller that puts `n` bytes of local variables on the
-- stack: neither the object nor its table lies there.
pub record Keeps (n : ℕ) {F G : Type 0} ⦃obj_layout : Struct F⦄ ⦃ops_layout : Struct G⦄
    (host : Host) (s : State) (obj : ℕ) (table : F) (methods : G → Option Method) : Type 0 where
  pub rep : Represents host s obj table methods
  pub room : n < s.sp
  pub obj_apart : Apart (s.sp - n) n (obj + offsetof table)
  pub ops_apart : (k : G) → Apart (s.sp - n) n (rep.ops + offsetof k)

module _ {F G : Type 0} ⦃obj_layout : Struct F⦄ ⦃ops_layout : Struct G⦄ {host : Host} {s : State}
    {n obj : ℕ} {table : F} {methods : G → Option Method}
    (kept : Keeps n host s obj table methods) where
  unfoldable pub Keeps-Represents :
      (sp : ℕ) (c : Cells)
      → Agree (s.sp - n) n s.cell c
      → Represents host (record { cell = c; sp = sp }) obj table methods
  Keeps-Represents sp c same = record {
    ops = rep.ops;
    entry = rep.entry;
    obj_mapped = rep.obj_mapped;
    ops_mapped = rep.ops_mapped;
    points = same _ kept.obj_apart ∙ rep.points;
    holds = λ k. same _ (kept.ops_apart k) ∙ rep.holds k;
    binds = rep.binds;
  }
    where
      open kept use {rep}

-- A callee's local variables lie below those of its caller.
pub Keeps-inner :
    {F G : Type 0} ⦃obj_layout : Struct F⦄ ⦃ops_layout : Struct G⦄ {host : Host} {s : State}
    {obj : ℕ} {table : F} {methods : G → Option Method} (outer inner : ℕ)
    → Keeps (outer + inner) host s obj table methods
    → Keeps inner host (record s { sp = s.sp - outer }) obj table methods
unfolding Keeps-Represents
Keeps-inner {s} outer inner kept = record {
  rep = Keeps-Represents kept (s.sp - outer) s.cell (Agree-refl _ _ s.cell);
  room = omega (arith, kept.room);
  obj_apart = omega (arith, kept.obj_apart);
  ops_apart = λ k. omega (arith, kept.ops_apart k);
}

return_from :
    (m : Option Method) (args : List ℕ) (c : Cells) (sp : ℕ) (s : State)
    → elim (perform m args (record { cell = c; sp = sp })) as (λ o. Option (ℤ × State)) [
      | none ↦ none
      | some (a, s') ↦ some (a, record s' { sp = s.sp })
    ]
      ≡ finish s (apply m args c)
return_from none args c sp s = refl
return_from (some m) args c sp s = ground arith

module _ {F G : Type 0} ⦃obj_layout : Struct F⦄ ⦃ops_layout : Struct G⦄ {host : Host} {s : State}
    {n obj : ℕ} {table : F} {methods : G → Option Method}
    (kept : Keeps n host s obj table methods) where
  -- A body that only fills its local variables before it calls.
  pub frame-vcall :
      (size : ℕ) (body : ℕ → M ℤ) (k : G) (args : List ℕ) (c : Cells)
      → Agree (s.sp - n) n s.cell c
      → body (s.sp - size) (record s { sp = s.sp - size })
        ≡ vcall host obj table k args (record { cell = c; sp = s.sp - size })
      → frame size body s ≡ finish s (apply (methods k) args c)
  unfolding frame
  frame-vcall size body k args c same e =
      rw (e ∙ vcall-perform (Keeps-Represents kept (s.sp - size) c same) k args, frame)
        (return_from (methods k) args c (s.sp - size) s)
