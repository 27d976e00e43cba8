-- ===== src/Domain/Refresh.antt =====
-- include/fi_domain.h: `fi_mr_refresh`, which clears a struct before it fills it.
use xlibfabric.Base.{
  ℕ, zero, suc, ◌+◌, ◌-◌, ◌*◌, ◌≤◌, ◌<◌, ◌≡◌, refl, ◌∙◌, Option, some, [], ◌∷◌, arith,
}
use xlibfabric.Machine.{Host, State, Cells, Method, addr_of, update, assign}
use xlibfabric.Machine.Locals.{Apart, Agree, apply, finish, Keeps, frame-vcall}
use xlibfabric.Fabric.Layout.{Fid, FiOps, fid_layout, fi_ops_layout, command_code, refresh}
use xlibfabric.Domain.Layout.{FidMr, fid_mr_layout}
use xlibfabric.Domain.{clear, fi_mr_refresh}

-- The memory after `memset(p, 0, 8 * n)`.
abbrev zeros : Cells → ℕ → ℕ → Cells
zeros c p zero = c
zeros c p (suc n) = zeros (update c p 0) (p + 8) n

zeros_outside : (c : Cells) (p n q : ℕ) → Apart p (8 * n) q → zeros c p n q ≡ c q
zeros_outside c p zero q out = refl
zeros_outside c p (suc n) q out =
    zeros_outside (update c p 0) (p + 8) n q (omega arith) ∙ ground arith

zeros_inside : (c : Cells) (p n i : ℕ) → i < n → zeros c p n (p + 8 * i) ≡ some 0
zeros_inside c p zero i h = absurd (omega arith)
zeros_inside c p (suc n) zero h = ground (arith, zeros_outside (update c p 0) (p + 8) n (p + 8 * 0))
zeros_inside c p (suc n) (suc i) h = ground (arith, zeros_inside (update c p 0) (p + 8) n i)

module _ {host : Host} {s : State} (mr : ℕ) {methods : FiOps → Option Method}
    (kept : Keeps 88 host s (addr_of mr FidMr.fid) Fid.ops methods) where
  -- Where the region's operations lie outside the call's locals, `fi_mr_refresh` calls the region's
  -- `control` with FI_REFRESH and the address of a `struct fi_mr_modify` that holds the flags, the
  -- vector and its length, and zero in each of the eight other words; elsewhere the memory is the
  -- caller's, and the stack pointer is given back.
  pub fi_mr_refresh-perform :
      (iov count flags : ℕ)
      → (c : Cells) × (c (s.sp - 88) ≡ some flags)
        × (c (s.sp - 88 + 8) ≡ some iov)
        × (c (s.sp - 88 + 16) ≡ some count)
        × ((i : ℕ) → 3 ≤ i → i < 11 → c (s.sp - 88 + 8 * i) ≡ some 0)
        × Agree (s.sp - 88) 88 s.cell c
        × (fi_mr_refresh host mr iov count flags s
            ≡ finish s (
                apply
                  (methods FiOps.control)
                  ((addr_of mr FidMr.fid) ∷ command_code refresh ∷ (s.sp - 88) ∷ [])
                  c))
  unfolding fi_mr_refresh assign clear
  fi_mr_refresh-perform iov count flags =
      let p = s.sp - 88 in
      let blank = zeros s.cell p 11 in
      let c = update (update (update blank (p + 0) flags) (p + 8 + 0) iov) (p + 8 + 8) count in
      let same : Agree p 88 s.cell c = λ q out. ground (arith, zeros_outside s.cell p 11 q) in
      (
        c,
        ground arith,
        ground arith,
        ground arith,
        λ i low high. ground (arith, zeros_inside s.cell p 11 i),
        same,
        frame-vcall kept 88 _ FiOps.control _ _ same refl,
      )
