-- ===== src/Examples/Runs.antt =====
-- The functions of src/Scalable.hs that open, run and close, on providers whose calls all return the
-- same number and leave memory as it is.
use xlibfabric.Base.{ℕ, ◌≡◌, refl, ◌≢◌, arith, Option, none, some, pos, negsuc}
use xlibfabric.Machine.{alloca, assign, update, Host, State, vcall, load, store, invoke, frame}
use xlibfabric.Fabric.{fi_allocinfo, fi_close}
use xlibfabric.Fabric.Layout.{Fid, fid_layout, fi_ops_layout}
use xlibfabric.Fabric.Dispatch.{fi_ops-perform}
use xlibfabric.Endpoint.{fi_scalable_ep_bind}
use xlibfabric.Scalable.Info.{
  ft_getinfo, ft_read_addr_opts, getaddr, copy_address, forget_address, move_bytes, hint_hmem,
}
use xlibfabric.Scalable.{Library}
use xlibfabric.Scalable.Setup.{init_fabric, ft_open_fabric_res, bind_ep_res}
use xlibfabric.Scalable.Setup.Stale.{ft_open_fabric_res-stale}
use xlibfabric.Scalable.Info.Zero.{ft_getinfo-Only}
use xlibfabric.Scalable.Setup.Results.{bind_ep_res-fails}
use xlibfabric.Scalable.Session.{run_test, run}
use xlibfabric.Scalable.Program.{scalable, with_env, with_hints, poke_eq_attr, poke_init_opts}
use xlibfabric.Scalable.Program.Never.{scalable-Never}
use xlibfabric.Scalable.Session.Outcome.{run_test-idle}
use xlibfabric.Examples.World.{bump, demo, represents}
use xlibfabric.Examples.Attributes.{env}

abbrev zero_host : Host
zero_host = record {
  call = λ fn args c. some (pos 0, c);
  fi_dupinfo = 7;
  enosys = 38;
  allocate = bump;
}

abbrev failing_host : Host
failing_host = record {
  call = λ fn args c. some (negsuc 4, c);
  fi_dupinfo = 7;
  enosys = 38;
  allocate = bump;
}

abbrev lib : Library
lib = record {
  fi_getinfo = 11;
  fi_freeinfo = 12;
  fi_fabric = 13;
  move_bytes = λ dest source count c. some c;
}

close_zero : (p : ℕ) → p ≢ 0 → fi_close zero_host p demo ≡ some (pos 0, demo)
close_zero p mapped = (fi_ops-perform (represents zero_host p Fid.ops mapped) 1 2 3 4 5 6).0

bind_ep_res-fails_example : bind_ep_res failing_host env demo ≡ some (pos 0, demo)
unfolding fi_scalable_ep_bind vcall load invoke
bind_ep_res-fails_example =
    bind_ep_res-fails failing_host env demo demo _ _ (negsuc 4) (omega arith) refl (omega arith)
      refl refl refl

run_test-idle_example : run_test zero_host 0 0 env demo ≡ some (some (pos 0), demo)
run_test-idle_example = run_test-idle zero_host 0 0 env demo _ (omega arith) refl

abbrev result : {A : Type 0} → Option (A × State) → Option A
result none = none
result (some (a, s)) = some a

abbrev five_host : Host
five_host = record {
  call = λ fn args c. some (pos 5, c);
  fi_dupinfo = 7;
  enosys = 38;
  allocate = bump;
}

-- The program has hints, and its run ends with a number that the provider returned.
five_ends : result (scalable five_host lib 3 3 demo) ≡ some (some (some (pos 5)))
unfolding scalable with_env with_hints poke_eq_attr poke_init_opts run init_fabric ft_getinfo
    ft_read_addr_opts getaddr copy_address forget_address move_bytes hint_hmem assign vcall load
    store invoke frame fi_allocinfo ft_open_fabric_res alloca
five_ends = refl

scalable-Never_example : scalable five_host lib 3 3 demo ≢ some (some (some (pos 0)), demo)
scalable-Never_example = scalable-Never five_host lib 3 3 demo demo

abbrev after : {A : Type 0} → Option (A × State) → State
after none = demo
after (some (a, s)) = s

abbrev asked : State
asked = after (ft_getinfo failing_host lib env demo)

-- `fi_getinfo` fails.
getinfo_ends : ft_getinfo failing_host lib env demo ≡ some (pos 0, asked)
unfolding ft_getinfo ft_read_addr_opts getaddr hint_hmem load store invoke alloca
getinfo_ends = refl

ft_getinfo-Only_example : pos 0 ≡ pos 0
ft_getinfo-Only_example = ft_getinfo-Only failing_host lib env demo asked (pos 0) getinfo_ends

-- No fabric is open, and `fi_fabric` stores one.
abbrev closed : State
closed = record { cell = update demo.cell env.fab 0; sp = 100000 }

abbrev opening_host : Host
opening_host = record {
  call = λ fn args c. some (pos 0, update c env.fab 7777);
  fi_dupinfo = 7;
  enosys = 38;
  allocate = bump;
}

abbrev opened : State
opened = record { cell = update closed.cell env.fab 7777; sp = 100000 }

ft_open_fabric_res-stale_example : ft_open_fabric_res opening_host lib env closed ≡ none
unfolding invoke
ft_open_fabric_res-stale_example =
    ft_open_fabric_res-stale opening_host lib env closed opened 7800 _ (omega arith) refl
      (omega arith) refl (omega arith) refl refl
