-- ===== src/Shared/Sizes.antt =====
-- include/shared.h: the sizes that a test runs with. The table of sizes is defined in a file of the
-- test suite that is not in the repository, and is a parameter.
use xlibfabric.Base.{
  ℕ, zero, suc, ◌-◌, ◌/◌, ◌%◌, ◌^◌, ◌≤◌, ◌≡◌, ◌≢◌, ◌∙◌, ◌↔◌, Bool, true, not, ◌&&◌, ◌||◌, arith,
  bit_and, ◌==◌, leb,
}
use native.Mathlib.Nat.{one-le-pow, pow-suc}
use xlibfabric.Base.Bits.{bit_and_bit, bit_and_comm}
use xlibfabric.Fabric.Info.{FiInfo}

-- struct test_size_param; `enable_flags` is the bit pattern of an `int`.
pub record TestSizeParam : Type 0 where
  pub size : ℕ
  pub enable_flags : ℕ

-- FT_ENABLE_ALL, which is ~0, and FT_DEFAULT_SIZE.
abbrev pub ft_enable_all : ℕ
ft_enable_all = 2 ^ 32 - 1

abbrev pub ft_default_size : ℕ
ft_default_size = 2 ^ 0

pub ft_use_size : (test_size : ℕ → TestSizeParam) → FiInfo → (index enable_flags : ℕ) → Bool
ft_use_size test_size fi index enable_flags =
    leb (test_size index).size fi.ep_attr.max_msg_size
    && ((enable_flags == ft_enable_all)
        || not (bit_and enable_flags (test_size index).enable_flags == 0))

one_flag : (k : ℕ) → 2 ^ k ≢ ft_enable_all
one_flag zero e = omega arith
one_flag (suc k) e = omega (arith, pow-suc 2 k)

has_flag : (k flags : ℕ) → (not (bit_and (2 ^ k) flags == 0) ≡ true) ↔ (flags / 2 ^ k % 2 ≡ 1)
has_flag k flags =
    let digit = bit_and_comm (2 ^ k) flags ∙ bit_and_bit k flags in
    (λ e. ground (arith, digit, one-le-pow k 2), λ e. ground (arith, digit, one-le-pow k 2))

-- With FT_ENABLE_ALL a test uses exactly the sizes that the endpoint can carry in one message; with a
-- single flag, exactly those of them whose entry has that flag.
pub ft_use_size-flag :
    (test_size : ℕ → TestSizeParam) (fi : FiInfo) (index k : ℕ)
    → ((ft_use_size test_size fi index ft_enable_all ≡ true)
        ↔ ((test_size index).size ≤ fi.ep_attr.max_msg_size))
      × ((ft_use_size test_size fi index (2 ^ k) ≡ true) ↔ (
          ((test_size index).size ≤ fi.ep_attr.max_msg_size)
          × ((test_size index).enable_flags / 2 ^ k % 2 ≡ 1)))
unfolding ft_use_size
ft_use_size-flag test_size fi index k =
    let flag = has_flag k (test_size index).enable_flags in
    (
      (λ e. ground arith, λ e. ground arith),
      (λ e. ground (arith, flag, one_flag k), λ e. ground (arith, flag, one_flag k)),
    )
