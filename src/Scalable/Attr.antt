-- ===== src/Scalable/Attr.antt =====
-- src/Scalable.hs: the wait attributes of queues and counters, the number of context bits, and
-- insertion into an address vector.
pub mod Bits
pub mod Written
pub mod Insert
use xlibfabric.Base.{
  ltb, ◌-◌, ◌%◌, ℕ, zero, suc, ◌+◌, ◌/◌, ◌^◌, Option, none, some, Bool, true, false, ◌==◌,
  if◌then◌else◌, ℤ, pos, negsuc,
}
use xlibfabric.Machine.{Host, M, Struct, load, store, offsetof, addr_of, pure, ◌>>=◌, ◌>>◌}
use xlibfabric.Domain.{fi_av_insert, fi_cntr_open}
use xlibfabric.Eq.Attr.{FiCqAttr, fi_cq_attr_layout}
use xlibfabric.Shared.OptsFields.{FtOptsField, ft_opts_field_layout}
use xlibfabric.Scalable.{Env}

-- `poke obj v; poke cond 1`.
abbrev pub set_wait : (obj cond v : ℕ) → M (Unit {0})
set_wait obj cond v = do store obj v; store cond 1

-- The case on `comp_method`.
unfoldable pub cq_wait_case : (attr waitset comp_method : ℕ) → M (Unit {0})
cq_wait_case attr waitset comp_method =
    let obj = addr_of attr FiCqAttr.wait_obj in
    let cond = addr_of attr FiCqAttr.wait_cond in
    if comp_method == 1
    then set_wait obj cond 1
    else if comp_method == 2
    then (do set_wait obj cond 2; store (addr_of attr FiCqAttr.wait_set) waitset)
    else if comp_method == 3
    then set_wait obj cond 3
    else if comp_method == 4
    then set_wait obj cond 5
    else store obj 0

unfoldable pub cntr_wait_case : (attr comp_method : ℕ) → M (Unit {0})
cntr_wait_case attr comp_method =
    let obj = addr_of attr FiCqAttr.wait_obj in
    if comp_method == 1
    then store obj 1
    else if comp_method == 2
    then store obj 2
    else if comp_method == 3
    then store obj 3
    else if comp_method == 4
    then store obj 5
    else store obj 0

unfoldable pub ft_cq_set_wait_attr : Env → M (Unit {0})
ft_cq_set_wait_attr env = do
  comp_method ← load env.opts (offsetof FtOptsField.comp_method)
  cq_wait_case env.cq_attr env.waitset comp_method

-- The case stands on the attributes of a queue, as in the source.
unfoldable pub ft_cntr_set_wait_attr : Env → M (Unit {0})
ft_cntr_set_wait_attr env = do
  comp_method ← load env.opts (offsetof FtOptsField.comp_method)
  cntr_wait_case env.cq_attr comp_method

-- `ctxShiftR (c, r)`, for numbers that are not negative, with the shifts that it may still make.
unfoldable pub ctx_shift_r : (fuel c r : ℕ) → Option ℕ
ctx_shift_r zero c r = none
ctx_shift_r (suc fuel) c r =
    let rest = ctx_shift_r fuel c (r + 1) in if c / 2 ^ r == 0 then some (r + 1) else rest

-- `while (c >> ++r);` of the C function that the comment quotes.
unfoldable pub documented_shift : (fuel c r : ℕ) → Option ℕ
documented_shift zero c r = none
documented_shift (suc fuel) c r =
    let rest = documented_shift fuel c (r + 1) in
    if c / 2 ^ (r + 1) == 0 then some (r + 1) else rest

-- `fromIntegral` from `CSize` to `CInt`, which keeps 32 bits.
abbrev pub c_int : ℕ → ℤ
c_int n = if ltb (n % 2 ^ 32) (2 ^ 31) then pos (n % 2 ^ 32) else negsuc (2 ^ 32 - 1 - n % 2 ^ 32)

abbrev pub equals : ℕ → ℤ → Bool
equals n (pos m) = n == m
equals n (negsuc m) = false

-- What `ft_av_insert` makes of the number of insertions.
unfoldable pub insert_result : (count : ℕ) → ℤ → ℤ
insert_result count (negsuc n) = negsuc n
insert_result count (pos n) = if equals n (c_int count) then pos 0 else negsuc 0

module _ (host : Host) where
  unfoldable pub ft_av_insert : (av addr count fi_addr flags context : ℕ) → M ℤ
  ft_av_insert av addr count fi_addr flags context = do
    ret ← fi_av_insert host av addr count fi_addr flags context
    pure (insert_result count ret)

  unfoldable pub ft_cntr_open : Env → (cntr : ℕ) → M ℤ
  ft_cntr_open env cntr = do
    ft_cntr_set_wait_attr env
    d ← load env.domain 0
    fi_cntr_open host d env.cntr_attr cntr cntr
