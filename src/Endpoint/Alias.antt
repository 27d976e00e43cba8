-- ===== src/Endpoint/Alias.antt =====
-- `fi_alias` of include/fabric.h and `fi_ep_alias` of include/fi_endpoint.h.
use xlibfabric.Base.{
  ℕ, ◌+◌, ◌-◌, ◌≤◌, ◌<◌, ◌≡◌, ◌≢◌, refl, ◌∙◌, ap, true, false, Option, some, [], ◌∷◌, arith, ℤ, pos,
  is_zero,
}
use xlibfabric.Machine.{
  Host, State, Cells, Method, addr_of, update, assign, frame, load, store, pure, container_of,
  ◌>>=◌, ◌>>◌,
}
use xlibfabric.Machine.Locals.{Apart, Agree, apply, finish, Keeps, Keeps-inner, frame-vcall}
use native.Mathlib.Nat.{add-zero}
use xlibfabric.Machine.Dispatch.{load-some, store-some, >>=-some}
use xlibfabric.Fabric.Layout.{
  Fid, FiOps, fid_layout, fi_ops_layout, fi_alias_layout, command_code, alias,
}
use xlibfabric.Fabric.{fi_control, fi_alias}
use xlibfabric.Endpoint.Layout.{FidEp, fid_ep_layout}
use xlibfabric.Endpoint.{fi_ep_alias}

-- The memory in which `struct fi_alias` lies at `p`.
abbrev pub alias_struct : Cells → ℕ → ℕ → ℕ → Cells
alias_struct c p fid flags = update (update c (p + 0) fid) (p + 8) flags

alias_struct-Agree :
    (lo n : ℕ) (c : Cells) (p fid flags : ℕ)
    → lo ≤ p
    → p + 16 ≤ lo + n
    → Agree lo n c (alias_struct c p fid flags)
alias_struct-Agree lo n c p fid flags low high q out = ground arith

-- Where the object's operations lie outside the call's locals, `fi_alias` calls `control` with
-- FI_ALIAS and the address of a struct that holds the place of the new object and the flags, and
-- gives the stack pointer back.
pub fi_alias-perform :
    {host : Host} {s : State} {fid n : ℕ} {methods : FiOps → Option Method}
    → Keeps n host s fid Fid.ops methods
    → 16 ≤ n
    → (alias_fid flags : ℕ)
    → fi_alias host fid alias_fid flags s
      ≡ finish s (
          apply
            (methods FiOps.control)
            (fid ∷ command_code alias ∷ (s.sp - 16) ∷ [])
            (alias_struct s.cell (s.sp - 16) alias_fid flags))
unfolding fi_alias assign fi_control
fi_alias-perform {s} {n} kept fits alias_fid flags =
    frame-vcall kept 16 _ FiOps.control _ _
      (alias_struct-Agree (s.sp - n) n s.cell (s.sp - 16) alias_fid flags (omega arith)
        (omega arith))
      refl

-- What `fi_ep_alias` does once `fi_alias` has returned, at the local pointer `fid`.
module _ (host : Host) (s : State) (ep alias_ep flags : ℕ) {r : ℤ} {c : Cells}
    (returned : fi_alias host (addr_of ep FidEp.fid) (s.sp - 8) flags (record s { sp = s.sp - 8 })
      ≡ some (r, record { cell = c; sp = s.sp - 8 })) where
  fails : is_zero r ≡ false → fi_ep_alias host ep alias_ep flags s ≡ some (r, record s { cell = c })
  unfolding fi_ep_alias frame
  fails nonzero = rw (returned, fi_ep_alias, frame) (rw nonzero refl)

  write_back :
      (new old : ℕ)
      → s.sp - 8 ≢ 0
      → c (s.sp - 8 + 0) ≡ some new
      → alias_ep ≢ 0
      → c alias_ep ≡ some old
      → (load (s.sp - 8) 0 >>= λ alias. store alias_ep (container_of alias FidEp.fid) >> pure r)
          (record { cell = c; sp = s.sp - 8 })
        ≡ some (r, record { cell = update c alias_ep (new - 0); sp = s.sp - 8 })
  write_back new old room held mapped was =
      >>=-some (load (s.sp - 8) 0) _ (load-some (s.sp - 8) 0 new _ room held)
      ∙ >>=-some (store alias_ep (new - 0)) _ (store-some alias_ep (new - 0) old _ mapped was)

  stores :
      (new old : ℕ)
      → is_zero r ≡ true
      → 8 < s.sp
      → c (s.sp - 8 + 0) ≡ some new
      → alias_ep ≢ 0
      → c alias_ep ≡ some old
      → fi_ep_alias host ep alias_ep flags s
        ≡ some (r, record s { cell = update c alias_ep (new - 0) })
  unfolding fi_ep_alias frame
  stores new old zero_ret room held mapped was =
      rw (returned, fi_ep_alias, frame)
        (rw zero_ret (rw (write_back new old (omega arith) held mapped was)))

-- Where the endpoint's operations lie outside the call's locals: if `control` fails, the wrapper
-- returns its result, and writes nothing but its own locals: the memory is what `control` made of
-- it.
pub fi_ep_alias-fails :
    {host : Host} {s : State} {methods : FiOps → Option Method} (ep alias_ep flags : ℕ) {r : ℤ}
    {c : Cells}
    → Keeps 24 host s (addr_of ep FidEp.fid) Fid.ops methods
    → apply
        (methods FiOps.control)
        ((addr_of ep FidEp.fid) ∷ command_code alias ∷ (s.sp - 8 - 16) ∷ [])
        (alias_struct s.cell (s.sp - 8 - 16) (s.sp - 8) flags)
      ≡ some (r, c)
    → is_zero r ≡ false
    → fi_ep_alias host ep alias_ep flags s ≡ some (r, record s { cell = c })
fi_ep_alias-fails {host} {s} ep alias_ep flags kept e nonzero =
    fails host s ep alias_ep flags
      (fi_alias-perform (Keeps-inner 8 16 kept) (omega arith) (s.sp - 8) flags
        ∙ ap (finish (record s { sp = s.sp - 8 })) e)
      nonzero

-- The documented FI_ALIAS command: it makes an object, writes its address where the struct says,
-- and returns 0.
abbrev pub IsAliasControl : (ℕ → ℕ → ℕ) → Method → Type 0
IsAliasControl make m =
    (fid p place flags : ℕ) (c : Cells)
    → c p ≡ some place
    → c (p + 8) ≡ some flags
    → m (fid ∷ command_code alias ∷ p ∷ []) c ≡ some (pos 0, update c place (make fid flags))

-- Where the endpoint's operations and `*alias_ep` lie outside the call's locals, and against a
-- `control` that keeps to the documented FI_ALIAS command, `fi_ep_alias` returns 0 and leaves the
-- new endpoint's address in `*alias_ep`, made from the endpoint and the flags; outside `*alias_ep`
-- and the 24 bytes of locals no word of memory changes, and the stack pointer is given back.
pub fi_ep_alias-stores :
    {host : Host} {s : State} {methods : FiOps → Option Method} (make : ℕ → ℕ → ℕ) {m : Method}
    (ep alias_ep flags : ℕ) {old : ℕ}
    → Keeps 24 host s (addr_of ep FidEp.fid) Fid.ops methods
    → methods FiOps.control ≡ some m
    → IsAliasControl make m
    → alias_ep ≢ 0
    → s.cell alias_ep ≡ some old
    → Apart (s.sp - 24) 24 alias_ep
    → (c : Cells) × (fi_ep_alias host ep alias_ep flags s ≡ some (pos 0, record s { cell = c }))
      × (c alias_ep ≡ some (make ep flags))
      × ((q : ℕ) → q ≢ alias_ep → Apart (s.sp - 24) 24 q → c q ≡ s.cell q)
fi_ep_alias-stores {host} {s} make {m} ep alias_ep flags {old} kept has documented mapped was
      apart =
    let local = s.sp - 8 in
    let struct = s.sp - 8 - 16 in
    let made = make (addr_of ep FidEp.fid) flags in
    let before = alias_struct s.cell struct local flags in
    let after = update before local made in
    (
      update after alias_ep (made - 0),
      stores host s ep alias_ep flags
          (fi_alias-perform (Keeps-inner 8 16 kept) (omega arith) local flags
            ∙ ap (finish (record s { sp = local })) (
                ap
                  (λ (o : Option Method).
                    apply o ((addr_of ep FidEp.fid) ∷ command_code alias ∷ struct ∷ []) before)
                  has
                ∙ documented (addr_of ep FidEp.fid) struct local flags before (ground arith)
                    (ground arith)))
          made old refl (omega (arith, kept.room)) (ground arith) mapped (ground arith),
      ground (arith, add-zero ep),
      λ q other out. ground arith,
    )
