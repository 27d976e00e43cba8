-- ===== src/Shared/Macros.antt =====
-- include/shared.h: the macros that bind an object to an endpoint, report an error of a queue, and set a
-- value by its name; and the enumerations of the tests.
use xlibfabric.Base.{
  ℕ, suc, ◌≢◌, ◌≡◌, refl, ◌∙◌, arith, Bool-cases, inl, inr, Option, none, some, Bool, false, ◌==◌,
  is_zero, if◌then◌else◌, ℤ, pos, [], ◌∷◌,
}
use xlibfabric.Machine.{Host, State, Method, M, Struct, addr_of, store, invoke, pure, ◌>>=◌, ◌>>◌}
use xlibfabric.Machine.Dispatch.{Represents, perform, >>=-some, vcall-perform}
use xlibfabric.Fabric.Layout.{Fid, fid_layout, FiOps, fi_ops_layout}
use xlibfabric.Endpoint.{fi_ep_bind}
use xlibfabric.Endpoint.Layout.{FidEp, fid_ep_layout}

-- enum ft_rma_opcodes
pub data FtRmaOpcodes : Type 0 where
  read write writedata : FtRmaOpcodes

abbrev pub ft_rma_opcodes_code : FtRmaOpcodes → ℕ
ft_rma_opcodes_code read = 1
ft_rma_opcodes_code write = 2
ft_rma_opcodes_code writedata = 3

-- enum ft_atomic_opcodes
pub data FtAtomicOpcodes : Type 0 where
  base fetch compare : FtAtomicOpcodes

abbrev pub ft_atomic_opcodes_code : FtAtomicOpcodes → ℕ
ft_atomic_opcodes_code base = 0
ft_atomic_opcodes_code fetch = 1
ft_atomic_opcodes_code compare = 2

-- enum op_state
pub data OpState : Type 0 where
  done pending : OpState

abbrev pub op_state_code : OpState → ℕ
op_state_code done = 0
op_state_code pending = 1

-- `rd == -err`, for an error number.
abbrev pub fails_with : (err : ℕ) → ℤ → Bool
fails_with err (ℤ.pos n) = false
fails_with err (ℤ.negsuc n) = suc n == err

-- `return ret` of a macro leaves the function around it: `some ret` is such a return.
abbrev pub Returns : Type 0
Returns = Option ℤ

module _ (host : Host) where
  -- FT_EP_BIND on an object whose `fid` is the field `fid`.
  unfoldable pub ft_ep_bind :
      {F : Type 0} ⦃layout : Struct F⦄ (fid : F) → (ep fd flags : ℕ) → M Returns
  ft_ep_bind fid ep fd flags =
      if fd == 0
      then pure none
      else (fi_ep_bind host ep (addr_of fd fid) flags >>= λ ret.
          if is_zero ret then pure none else pure (some ret))

  -- FT_PROCESS_QUEUE_ERR: the reader of the error entry is called exactly for -FI_EAVAIL.
  unfoldable pub ft_process_queue_err :
      (fi_eavail readerr : ℕ) → ℤ → (queue text : ℕ) → M (Unit {0})
  ft_process_queue_err fi_eavail readerr rd queue text =
      if fails_with fi_eavail rd
      then invoke host readerr (queue ∷ text ∷ []) >>= (λ _. pure tt)
      else pure tt

-- TEST_SET_N_RETURN, for a `strncmp`.
unfoldable pub test_set_n_return :
    (strncmp : (str val_str len : ℕ) → M ℤ) → (str len val_str val data_ : ℕ) → M Returns
test_set_n_return strncmp str len val_str val data_ = strncmp str val_str len >>= λ order.
    if is_zero order then (store data_ val >> pure (some (pos 0))) else pure none

returns_lem :
    (ret : ℤ) (t : State)
    → (if is_zero ret then pure none else pure (some ret)) t
      ≡ some (if is_zero ret then none else some ret, t)
returns_lem ret t = elim (Bool-cases (is_zero ret)) [ inl e ↦ rw e refl | inr e ↦ rw e refl ]

-- A null object is not bound. Any other is bound by the method of the endpoint's own `fid`, and the
-- function around the macro returns exactly the failures of that call.
pub ft_ep_bind-perform :
    {F : Type 0} ⦃layout : Struct F⦄ {host : Host} {s : State} {methods : FiOps → Option Method}
    (ep : ℕ) (fid : F) (fd flags : ℕ) (ret : ℤ) (t : State)
    → fd ≢ 0
    → Represents host s (addr_of ep FidEp.fid) Fid.ops methods
    → perform (methods FiOps.bind) (addr_of ep FidEp.fid ∷ addr_of fd fid ∷ flags ∷ []) s
      ≡ some (ret, t)
    → (ft_ep_bind host fid ep 0 flags s ≡ some (none, s))
      × (ft_ep_bind host fid ep fd flags s ≡ some (if is_zero ret then none else some ret, t))
unfolding ft_ep_bind fi_ep_bind
ft_ep_bind-perform ep fid fd flags ret t mapped r e =
    let not_null : (fd == 0) ≡ false = ground arith in
    (
      refl,
      rw not_null (
          >>=-some (fi_ep_bind _ ep (addr_of fd fid) flags)
            (λ ret. if is_zero ret then pure none else pure (some ret))
            (vcall-perform r FiOps.bind _ ∙ e)
          ∙ returns_lem ret t),
    )
