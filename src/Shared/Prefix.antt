-- ===== src/Shared/Prefix.antt =====
-- include/shared.h: forcing the message prefix mode, and checking that the provider kept it.
use xlibfabric.Base.{
  ℕ, ◌/◌, ◌%◌, ◌^◌, ◌≡◌, ◌↔◌, Bool, true, not, ◌&&◌, arith, bit_and, bit_or, ◌==◌, if◌then◌else◌,
}
use xlibfabric.Base.Bits.{bit_or_bit, bit_and_bit}
use xlibfabric.Fabric.Info.{FiInfo}
use xlibfabric.Shared.Options.{FtOpts}

abbrev pub fi_msg_prefix : ℕ
fi_msg_prefix = 2 ^ 58

pub ft_force_prefix : FiInfo → FtOpts → FiInfo × FtOpts
ft_force_prefix info opts =
    (record info { mode = bit_or info.mode fi_msg_prefix }, record opts { force_prefix = 1 })

pub ft_check_prefix_forced : FiInfo → FtOpts → Bool
ft_check_prefix_forced info opts =
    if not (opts.force_prefix == 0)
    then not (bit_and info.tx_attr.mode fi_msg_prefix == 0)
      && not (bit_and info.rx_attr.mode fi_msg_prefix == 0)
    else true

-- After `ft_force_prefix` the hints ask for the prefix mode and for every mode that they asked for
-- before, and the check of an info that a provider answers with passes exactly when its transmit
-- and receive modes both have the bit.
pub ft_check_prefix_forced-force :
    (hints answer : FiInfo) (opts : FtOpts)
    → ((ft_force_prefix hints opts).0.mode / 2 ^ 58 % 2 ≡ 1)
      × ((ft_force_prefix hints opts).0.mode % 2 ^ 58 ≡ hints.mode % 2 ^ 58)
      × ((ft_force_prefix hints opts).0.mode / 2 ^ 59 ≡ hints.mode / 2 ^ 59)
      × ((ft_check_prefix_forced answer (ft_force_prefix hints opts).1 ≡ true)
          ↔ ((answer.tx_attr.mode / 2 ^ 58 % 2 ≡ 1) × (answer.rx_attr.mode / 2 ^ 58 % 2 ≡ 1)))
unfolding ft_force_prefix ft_check_prefix_forced
ft_check_prefix_forced-force hints answer opts = (
  omega (arith, bit_or_bit 58 hints.mode),
  omega (arith, bit_or_bit 58 hints.mode),
  omega (arith, bit_or_bit 58 hints.mode),
  (
    λ e. ground (arith, bit_and_bit 58 answer.tx_attr.mode, bit_and_bit 58 answer.rx_attr.mode),
    λ e. ground (arith, bit_and_bit 58 answer.tx_attr.mode, bit_and_bit 58 answer.rx_attr.mode),
  ),
)
