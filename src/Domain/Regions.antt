-- ===== src/Domain/Regions.antt =====
-- include/fi_domain.h: the memory region calls that pass a struct to `control`.
use xlibfabric.Base.{ℕ, ◌+◌, ◌-◌, ◌≤◌, ◌≡◌, refl, Option, some, [], ◌∷◌, arith}
use xlibfabric.Machine.{Host, State, Cells, Method, addr_of, update, assign}
use xlibfabric.Machine.Locals.{Agree, Agree-refl, Agree-update, apply, finish, Keeps, frame-vcall}
use xlibfabric.Fabric.Layout.{
  Fid, FiOps, fid_layout, fi_ops_layout, fi_mr_raw_attr_layout, fi_mr_map_raw_layout, command_code,
  get_raw_mr, map_raw_mr, unmap_key,
}
use xlibfabric.Domain.Layout.{
  FidMr, fid_mr_layout, FidDomain, fid_domain_layout, fi_mr_modify_layout, fi_mr_attr_layout,
}
use xlibfabric.Domain.{fi_mr_raw_attr, fi_mr_map_raw, fi_mr_unmap_key}

-- The five words at `p` are the members of `struct fi_mr_map_raw`, the first four those of `struct
-- fi_mr_raw_attr`.
abbrev pub Words4 : Cells → ℕ → ℕ → ℕ → ℕ → ℕ → Type 0
Words4 c p a b x y =
    (c p ≡ some a) × (c (p + 8) ≡ some b) × (c (p + 16) ≡ some x) × (c (p + 24) ≡ some y)

-- The memory in which a struct of four or five words lies at `p`.
abbrev four_words : Cells → ℕ → ℕ → ℕ → ℕ → ℕ → Cells
four_words c p a b x y =
    update (update (update (update c (p + 0) a) (p + 8) b) (p + 16) x) (p + 24) y

four_words-Words4 : (c : Cells) (p a b x y : ℕ) → Words4 (four_words c p a b x y) p a b x y
four_words-Words4 c p a b x y = (ground arith, ground arith, ground arith, ground arith)

four_words-Agree :
    (n : ℕ) (c : Cells) (p a b x y : ℕ) → 32 ≤ n → Agree p n c (four_words c p a b x y)
four_words-Agree n c p a b x y h q out = ground arith

module _ {host : Host} {s : State} (mr : ℕ) {methods : FiOps → Option Method}
    (kept : Keeps 32 host s (addr_of mr FidMr.fid) Fid.ops methods) where
  -- Where the region's operations lie outside the call's locals, `fi_mr_raw_attr` calls the
  -- region's `control` with FI_GET_RAW_MR and the address of a struct that holds the flags and the
  -- three pointers, leaves the rest of the caller's memory to it, and gives the stack pointer back.
  pub fi_mr_raw_attr-perform :
      (base_addr raw_key key_size flags : ℕ)
      → (c : Cells) × Words4 c (s.sp - 32) flags base_addr raw_key key_size
        × Agree (s.sp - 32) 32 s.cell c
        × (fi_mr_raw_attr host mr base_addr raw_key key_size flags s
            ≡ finish s (
                apply
                  (methods FiOps.control)
                  ((addr_of mr FidMr.fid) ∷ command_code get_raw_mr ∷ (s.sp - 32) ∷ [])
                  c))
  unfolding fi_mr_raw_attr assign
  fi_mr_raw_attr-perform base_addr raw_key key_size flags = (
    four_words s.cell (s.sp - 32) flags base_addr raw_key key_size,
    four_words-Words4 s.cell (s.sp - 32) flags base_addr raw_key key_size,
    four_words-Agree 32 s.cell (s.sp - 32) flags base_addr raw_key key_size (omega arith),
    frame-vcall kept 32 _ FiOps.control _ _
        (four_words-Agree 32 s.cell (s.sp - 32) flags base_addr raw_key key_size (omega arith))
        refl,
  )

module _ {host : Host} {s : State} (domain : ℕ) {methods : FiOps → Option Method} where
  -- Where the domain's operations lie outside the call's locals, `fi_mr_map_raw` calls the domain's
  -- `control` with FI_MAP_RAW_MR and the address of a struct that holds the flags, the base
  -- address, the raw key with its size, and where the key goes; elsewhere the memory is the
  -- caller's, and the stack pointer is given back.
  pub fi_mr_map_raw-perform :
      (base_addr raw_key key_size key flags : ℕ)
      → Keeps 40 host s (addr_of domain FidDomain.fid) Fid.ops methods
      → (c : Cells) × Words4 c (s.sp - 40) flags base_addr raw_key key_size
        × (c (s.sp - 40 + 32) ≡ some key)
        × Agree (s.sp - 40) 40 s.cell c
        × (fi_mr_map_raw host domain base_addr raw_key key_size key flags s
            ≡ finish s (
                apply
                  (methods FiOps.control)
                  ((addr_of domain FidDomain.fid) ∷ command_code map_raw_mr ∷ (s.sp - 40) ∷ [])
                  c))
  unfolding fi_mr_map_raw assign
  fi_mr_map_raw-perform base_addr raw_key key_size key flags kept =
      let p = s.sp - 40 in
      let before = four_words s.cell p flags base_addr raw_key key_size in
      let same : Agree p 40 s.cell (update before (p + 32) key) =
        Agree-update p 40 s.cell before (p + 32) key (omega arith) (omega arith)
          (four_words-Agree 40 s.cell p flags base_addr raw_key key_size (omega arith)) in
      (
        update before (p + 32) key,
        (ground arith, ground arith, ground arith, ground arith),
        ground arith,
        same,
        frame-vcall kept 40 _ FiOps.control _ _ same refl,
      )

  -- Where the domain's operations lie outside the call's locals, `fi_mr_unmap_key` calls `control`
  -- with FI_UNMAP_KEY and the address of a word that holds the key; elsewhere the memory is the
  -- caller's, and the stack pointer is given back.
  pub fi_mr_unmap_key-perform :
      (key : ℕ)
      → Keeps 8 host s (addr_of domain FidDomain.fid) Fid.ops methods
      → (c : Cells) × (c (s.sp - 8) ≡ some key)
        × Agree (s.sp - 8) 8 s.cell c
        × (fi_mr_unmap_key host domain key s
            ≡ finish s (
                apply
                  (methods FiOps.control)
                  ((addr_of domain FidDomain.fid) ∷ command_code unmap_key ∷ (s.sp - 8) ∷ [])
                  c))
  unfolding fi_mr_unmap_key assign
  fi_mr_unmap_key-perform key kept =
      let same : Agree (s.sp - 8) 8 s.cell (update s.cell (s.sp - 8) key) =
        Agree-update (s.sp - 8) 8 s.cell s.cell (s.sp - 8) key (omega arith) (omega arith)
          (Agree-refl (s.sp - 8) 8 s.cell) in
      (
        update s.cell (s.sp - 8) key,
        ground arith,
        same,
        frame-vcall kept 8 _ FiOps.control _ _ same refl,
      )
