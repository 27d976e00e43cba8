-- ===== src/Shared/Timing.antt =====
-- include/shared.h: `ft_start` and `ft_stop`, which mark a test as active and take the time.
use xlibfabric.Base.{ℕ, ◌+◌, ◌-◌, ◌*◌, ◌/◌, ◌%◌, ◌^◌, ◌<◌, ◌≡◌, arith, bit_and, bit_or}
use xlibfabric.Base.Bits.{bit_or_bit, bit_and_even}
use xlibfabric.Shared.Options.{FtOpts, option_flag, active}

-- The globals `opts`, `start` and `end`.
pub record Timing : Type 0 where
  pub opts : FtOpts
  pub start : ℕ
  pub stop : ℕ

-- `now` is what the monotonic clock shows; `options` is the bit pattern of an `int`.
pub ft_start : (now : ℕ) → Timing → Timing
ft_start now t = record {
  opts = record t.opts { options = bit_or t.opts.options (option_flag active) };
  start = now;
  stop = t.stop;
}

pub ft_stop : (now : ℕ) → Timing → Timing
ft_stop now t = record {
  opts = record t.opts { options = bit_and t.opts.options (2 ^ 32 - 1 - option_flag active) };
  start = t.start;
  stop = now;
}

set_active : (a : ℕ) → bit_or a 1 ≡ a / 2 * 2 + 1
set_active a = omega (arith, bit_or_bit 0 a)

-- Between the two calls the active flag is set and the other flags are as they were; afterwards
-- it is clear, whether it was set before or not, the other flags are as they were, and both times
-- are recorded.
pub ft_stop-start :
    (begin finish : ℕ) (t : Timing)
    → t.opts.options < 2 ^ 32
    → ((ft_start begin t).opts.options % 2 ≡ 1)
      × ((ft_start begin t).opts.options / 2 ≡ t.opts.options / 2)
      × (ft_stop finish (ft_start begin t) ≡ record {
        opts = record t.opts { options = t.opts.options / 2 * 2 };
        start = begin;
        stop = finish;
      })
unfolding ft_start ft_stop
ft_stop-start begin finish t h = (
  omega (arith, set_active t.opts.options),
  omega (arith, set_active t.opts.options),
  ground (arith, set_active t.opts.options, bit_and_even (bit_or t.opts.options 1)),
)
