-- ===== src/Msg.antt =====
-- include/msg.c: the client-server example. The helpers of the test suite, `getopt` and libfabric
-- are not in the repository: they are the fields of `Suite`.
pub mod Session
pub mod Exit
use xlibfabric.Base.{
  ℕ, zero, suc, Bool, true, false, ◌||◌, Option, none, some, List, [], ◌∷◌, ◌==◌, ltb,
  if◌then◌else◌, ℤ, pos, is_zero, bit_or,
}
use xlibfabric.Fabric.Info.{FiInfo}
use xlibfabric.Shared.ExitCode.{ft_exit_code}
use xlibfabric.Shared.Options.{FtOpts, init_opts, option_flag, size, fi_mr_local, ofi_mr_basic_map}

-- The calls that leave the file.
pub data Event : Type 0 where
  parse_addr_opts parse_info usage start_server server_connect client_connect : Event
  send_recv_greeting shutdown free_res : Event

-- The globals that the code reads and writes; `world` is the rest of the process.
pub record Process (World : Type 0) : Type 0 where
  pub opts : FtOpts
  pub hints : FiInfo
  pub optind : ℕ
  pub world : World

-- A call may change all of the process, and returns an `int` (0 for one that returns nothing).
-- `getopt` answers an option character, or nothing for its -1.
pub record Suite : Type 1 where
  pub World : Type 0
  pub exit_failure : ℕ
  pub fi_allocinfo : World → Option FiInfo × World
  pub getopt : Process World → Option ℕ × Process World
  pub effect : Event → Process World → ℤ × Process World
  pub argv_at : ℕ → ℕ → ℕ

-- The process with the calls made so far, the newest first. No code reads the calls.
pub record Traced (World : Type 0) : Type 0 where
  pub process : Process World
  pub events : List Event

pub data Outcome (World : Type 0) : Type 0 where
  exit : ℕ → Traced World → Outcome World
  undefined : Traced World → Outcome World
  out_of_fuel : Outcome World

pub data Parsed (World : Type 0) : Type 0 where
  finished : Traced World → Parsed World
  asked_usage : Traced World → Parsed World
  unfinished : Parsed World

module _ (suite : Suite) where
  open suite use {World, exit_failure, fi_allocinfo, getopt, effect, argv_at}

  abbrev pub act : Event → Traced World → ℤ × Traced World
  act e t =
      let (ret, p) = effect e t.process in (ret, record { process = p; events = e ∷ t.events })

  -- `if (ret) return ret;`
  abbrev pub and_then : ℤ × Traced World → (Traced World → ℤ × Traced World) → ℤ × Traced World
  and_then (ret, t) rest = if is_zero ret then rest t else (ret, t)

  -- `ret = ft_send_recv_greeting(ep); fi_shutdown(ep, 0); return ret;`
  pub greet : Traced World → ℤ × Traced World
  greet t = let (ret, t1) = act send_recv_greeting t in let (_, t2) = act shutdown t1 in (ret, t2)

  pub connect : Traced World → ℤ × Traced World
  connect t =
      and_then (if t.process.opts.dst_addr == 0 then act server_connect t else act client_connect t)
        greet

  pub run : Traced World → ℤ × Traced World
  run t = and_then (if t.process.opts.dst_addr == 0 then act start_server t else (pos 0, t)) connect

  -- The loop over the options, with the rounds that it may still make.
  pub parse : ℕ → Traced World → Parsed World
  parse zero t = unfinished
  parse (suc fuel) t =
      let (op, p) = getopt t.process in
      let seen = record t { process = p } in
      elim op [
        | none ↦ finished seen
        | some c ↦ elim ((c == b'?') || (c == b'h')) [
          | true ↦ asked_usage (act usage seen).1
          | false ↦ parse fuel (act parse_info (act parse_addr_opts seen).1).1
        ]
      ]

  -- What stands between the loop and `run`.
  pub prepare : (argc argv : ℕ) → Process World → Process World
  prepare argc argv p = record p {
    opts = if ltb p.optind argc then record p.opts { dst_addr = argv_at argv p.optind } else p.opts;
    hints = record p.hints {
      ep_attr = record p.hints.ep_attr { type = 1 };
      caps = 2;
      domain_attr = record p.hints.domain_attr { mr_mode = bit_or fi_mr_local ofi_mr_basic_map };
    };
  }

  pub status : Option ℕ → Traced World → Outcome World
  status none t = undefined t
  status (some code) t = exit code t

  -- `ret = run(); ft_free_res(); return ft_exit_code(ret);`
  pub run_and_free : Traced World → Outcome World
  run_and_free t =
      let (ret, t1) = run t in
      let (_, t2) = act free_res t1 in status (ft_exit_code exit_failure ret) t2

  pub after_options : (argc argv : ℕ) → Parsed World → Outcome World
  after_options argc argv unfinished = out_of_fuel
  after_options argc argv (asked_usage t) = exit exit_failure t
  after_options argc argv (finished t) =
      run_and_free (record t { process = prepare argc argv t.process })

  -- The globals as the program starts, with the initial options.
  unfoldable pub initial : (argc argv : ℕ) → Process World → Process World
  initial argc argv p =
      let opts = init_opts argc argv in
      record p { opts = record opts { options = bit_or opts.options (option_flag size) } }

  pub msg : (fuel argc argv : ℕ) → Process World → Outcome World
  msg fuel argc argv p =
      let (hints, w) = fi_allocinfo p.world in
      let started = initial argc argv (record p { world = w }) in
      elim hints [
        | none ↦ exit exit_failure (record { process = started; events = [] })
        | some h ↦
            after_options argc argv
              (parse fuel (record { process = record started { hints = h }; events = [] }))
      ]
