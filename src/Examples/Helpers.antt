-- ===== src/Examples/Helpers.antt =====
-- Runs of the helpers of include/shared.h.
use xlibfabric.Base.{arith, ◌≡◌, ◌↔◌, ◌*◌, ◌/◌, ◌%◌, ◌^◌, true}
use xlibfabric.Fabric.Layout.{fid_layout, fi_ops_layout}
use xlibfabric.Endpoint.Layout.{fid_ep_layout}
use xlibfabric.Shared.Options.{init_opts}
use xlibfabric.Shared.Timing.{Timing, ft_start, ft_stop, ft_stop-start}
use xlibfabric.Shared.Prefix.{ft_force_prefix, ft_check_prefix_forced, ft_check_prefix_forced-force}
use xlibfabric.Examples.Info.{demo_info}

abbrev clock : Timing
clock = record { opts = init_opts 1 5000; start = 0; stop = 0 }

ft_stop-start_example :
    ((ft_start 100 clock).opts.options % 2 ≡ 1)
    × ((ft_start 100 clock).opts.options / 2 ≡ clock.opts.options / 2)
    × (ft_stop 250 (ft_start 100 clock) ≡ record {
      opts = record clock.opts { options = clock.opts.options / 2 * 2 };
      start = 100;
      stop = 250;
    })
unfolding init_opts
ft_stop-start_example = ft_stop-start 100 250 clock (omega arith)

ft_check_prefix_forced-force_example :
    ((ft_force_prefix demo_info clock.opts).0.mode / 2 ^ 58 % 2 ≡ 1)
    × ((ft_force_prefix demo_info clock.opts).0.mode % 2 ^ 58 ≡ demo_info.mode % 2 ^ 58)
    × ((ft_force_prefix demo_info clock.opts).0.mode / 2 ^ 59 ≡ demo_info.mode / 2 ^ 59)
    × ((ft_check_prefix_forced demo_info (ft_force_prefix demo_info clock.opts).1 ≡ true)
        ↔ ((demo_info.tx_attr.mode / 2 ^ 58 % 2 ≡ 1) × (demo_info.rx_attr.mode / 2 ^ 58 % 2 ≡ 1)))
ft_check_prefix_forced-force_example = ft_check_prefix_forced-force demo_info demo_info clock.opts
