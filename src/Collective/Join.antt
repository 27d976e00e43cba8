-- ===== src/Collective/Join.antt =====
-- include/fi_collective.h: `fi_join_collective`, which joins through a struct on the stack.
use xlibfabric.Base.{
  ℕ, ◌+◌, ◌-◌, ◌/◌, ◌%◌, ◌^◌, ◌≤◌, ◌≡◌, ◌∙◌, refl, Option, none, some, List, [], ◌∷◌, arith, bit_or,
  ℤ, neg,
}
use xlibfabric.Base.Bits.{bit_or_bit}
use xlibfabric.Machine.{Host, State, Cells, Method, M, Struct, offsetof, update, assign, frame}
use xlibfabric.Machine.Locals.{Apart, Agree, finish}
use xlibfabric.Fabric.Optional.{perform_or, Offers, checked_vcall-perform}
use xlibfabric.Fabric.CheckOp.{checked_vcall}
use xlibfabric.Fabric.Flags.{fi_collective}
use xlibfabric.Endpoint.Layout.{FidEp, fid_ep_layout}
use xlibfabric.Cm.Layout.{FiOpsCm, fi_ops_cm_layout}
use xlibfabric.Cm.{fi_join}
use xlibfabric.Collective.Layout.{fi_collective_addr_layout}
use xlibfabric.Collective.{fi_join_collective}

-- What a guarded call makes of a memory: the method's answer, or -FI_ENOSYS.
abbrev pub answer : ℕ → Option Method → Method
answer enosys none args c = some (neg enosys, c)
answer enosys (some m) args c = m args c

-- The memory in which `struct fi_collective_addr` lies at `p`.
abbrev pub collective_addr : Cells → ℕ → ℕ → ℕ → Cells
collective_addr c p set coll_addr = update (update c (p + 0) set) (p + 8) coll_addr

-- Neither the object's pointer to its table nor the table lies in the `n` bytes at `lo`.
abbrev pub IsClear :
    {F G : Type 0} ⦃obj_layout : Struct F⦄ ⦃ops_layout : Struct G⦄ {host : Host} {s : State}
    {obj : ℕ} {table : F} {methods : G → Option Method}
    → ℕ
    → ℕ
    → Offers host s obj table methods
    → Type 0
IsClear {obj} {table} lo n r =
    Apart lo n (obj + offsetof table) × ((k : ℕ) → k ≤ r.size → Apart lo n (r.ops + k))

moved :
    {F G : Type 0} ⦃obj_layout : Struct F⦄ ⦃ops_layout : Struct G⦄ {host : Host} {s : State}
    {obj : ℕ} {table : F} {methods : G → Option Method} (lo n sp : ℕ) (c : Cells)
    (r : Offers host s obj table methods)
    → IsClear lo n r
    → Agree lo n s.cell c
    → Offers host (record { cell = c; sp = sp }) obj table methods
moved lo n sp c r clear same = record {
  ops = r.ops;
  size = r.size;
  entry = r.entry;
  obj_mapped = r.obj_mapped;
  points = same _ clear.0 ∙ r.points;
  absent = r.absent;
  sized = λ mapped. same _ (clear.1 0 (omega arith)) ∙ r.sized mapped;
  cut = r.cut;
  holds = λ mapped k inside. same _ (clear.1 (offsetof k) (omega arith)) ∙ r.holds mapped k inside;
  binds = r.binds;
}

joins :
    (enosys : ℕ) (m : Option Method) (args : List ℕ) (c : Cells) (sp : ℕ) (s : State)
    → elim (perform_or enosys m args (record { cell = c; sp = sp })) as (λ o. Option (ℤ × State)) [
      | none ↦ none
      | some (a, s') ↦ some (a, record s' { sp = s.sp })
    ]
      ≡ finish s (answer enosys m args c)
joins enosys none args c sp s = refl
joins enosys (some m) args c sp s = ground arith

-- A body that only fills its local variables before a guarded call.
frame-checked_vcall :
    {F G : Type 0} ⦃obj_layout : Struct F⦄ ⦃ops_layout : Struct G⦄ {host : Host} {obj : ℕ}
    {table : F} {methods : G → Option Method} (s : State) (n : ℕ) (body : ℕ → M ℤ) (k : G)
    (args : List ℕ) (c : Cells)
    → Offers host (record { cell = c; sp = s.sp - n }) obj table methods
    → body (s.sp - n) (record s { sp = s.sp - n })
      ≡ checked_vcall host obj table k args (record { cell = c; sp = s.sp - n })
    → frame n body s ≡ finish s (answer host.enosys (methods k) args c)
unfolding frame
frame-checked_vcall {host} {methods} s n body k args c r e =
    rw (e ∙ checked_vcall-perform r k args, frame)
      (joins host.enosys (methods k) args c (s.sp - n) s)

-- On an endpoint whose connection operations may be null or end early, and lie outside the 16 bytes
-- below the stack pointer, `fi_join_collective` is the method `join`, or -FI_ENOSYS if there is
-- none. The method gets the address of a struct that holds the set and the collective address, and
-- the caller's flags with FI_COLLECTIVE set and no other changed; the stack pointer is given back.
pub fi_join_collective-perform :
    {host : Host} {s : State} {ep : ℕ} {methods : FiOpsCm → Option Method}
    (coll_addr set flags mc context : ℕ) (r : Offers host s ep FidEp.cm methods)
    → IsClear (s.sp - 16) 16 r
    → (all : ℕ) × (all / 2 ^ 6 % 2 ≡ 1)
      × (all % 2 ^ 6 ≡ flags % 2 ^ 6)
      × (all / 2 ^ 7 ≡ flags / 2 ^ 7)
      × (fi_join_collective host ep coll_addr set flags mc context s
          ≡ finish s (
              answer host.enosys
                (methods FiOpsCm.join)
                (ep ∷ (s.sp - 16) ∷ all ∷ mc ∷ context ∷ [])
                (collective_addr s.cell (s.sp - 16) set coll_addr)))
unfolding fi_join_collective assign fi_join
fi_join_collective-perform {host} {s} {ep} {methods} coll_addr set flags mc context r clear =
    let c = collective_addr s.cell (s.sp - 16) set coll_addr in
    let same : Agree (s.sp - 16) 16 s.cell c = λ q out. ground arith in
    let args = ep ∷ (s.sp - 16) ∷ bit_or flags fi_collective ∷ mc ∷ context ∷ [] in
    (
      bit_or flags fi_collective,
      omega (arith, bit_or_bit 6 flags),
      omega (arith, bit_or_bit 6 flags),
      omega (arith, bit_or_bit 6 flags),
      frame-checked_vcall s 16 _ FiOpsCm.join args c
          (moved (s.sp - 16) 16 (s.sp - 16) c r clear same) refl,
    )
