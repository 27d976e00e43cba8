-- ===== src/Examples/Session.antt =====
-- Runs of the client-server example, against a test suite that counts its options down.
use xlibfabric.Base.{
  arith, ◌≡◌, ◌≢◌, ◌≤◌, ◌<◌, ◌⊎◌, ◌↔◌, ◌+◌, ◌-◌, refl, [], ◌∷◌, some, none, Option, true, false,
  pos, negsuc, ℤ, ◌==◌, if◌then◌else◌, is_zero, ℕ,
}
use xlibfabric.Shared.ExitCode.{IsInt, int_min}
use xlibfabric.Shared.Options.{init_opts}
use xlibfabric.Msg.{
  Event, start_server, server_connect, client_connect, send_recv_greeting, free_res, Process, Suite,
  Traced, exit, run, run_and_free, initial, msg,
}
use xlibfabric.Msg.Session.{IsSession, run-client, run-server}
use xlibfabric.Msg.Exit.{IsSound, EndsWell, run_and_free-exits, msg-exits}
use xlibfabric.Examples.Info.{demo_info}

-- Every call succeeds but the greeting, which fails with -11.
abbrev result_of : Event → ℤ
result_of send_recv_greeting = negsuc 10
result_of _ = pos 0

abbrev next_option : Process ℕ → Option ℕ × Process ℕ
next_option p = if p.world == 0 then (none, p) else (some 112, record p { world = p.world - 1 })

abbrev demo_suite : Suite
demo_suite = record {
  World = ℕ;
  exit_failure = 1;
  fi_allocinfo = λ w. (some demo_info, w);
  getopt = next_option;
  effect = λ e p. (result_of e, p);
  argv_at = λ argv i. argv + i;
}

abbrev started : Process ℕ
started = record { opts = init_opts 1 5000; hints = demo_info; optind = 1; world = 3 }

-- A server has no destination address, a client has one.
abbrev server : Traced ℕ
server = record { process = started; events = [] }

abbrev client : Traced ℕ
client = record {
  process = record started { opts = record started.opts { dst_addr = 9 } };
  events = [];
}

options_end :
    (p : Process ℕ) (c : ℕ) → (next_option p).0 ≡ some c → (next_option p).1.world < p.world
options_end p c h = ground arith

results_IsInt : (e : Event) → IsInt (result_of e)
results_IsInt e = ground arith

results_low : (e : Event) → result_of e ≢ int_min
results_low e h = ground arith

abbrev demo_sound : IsSound demo_suite
demo_sound = record {
  remaining = λ p. p.world;
  getopt_ends = options_end;
  addr_opts_keep = λ p. omega arith;
  info_keeps = λ p. omega arith;
  is_int = λ e p. results_IsInt e;
  not_min = λ e p. results_low e;
  failure_low = omega arith;
  failure_high = omega arith;
}

run-client_example :
    IsSession demo_suite client_connect client
      (run demo_suite client).0
      (run demo_suite client).1.events
unfolding init_opts
run-client_example = run-client demo_suite client refl

abbrev serving : Traced ℕ
serving = record { process = started; events = start_server ∷ [] }

run-server_example :
    ((is_zero (pos 0) ≡ false)
      × ((run demo_suite server).0 ≡ pos 0)
      × ((run demo_suite server).1.events ≡ start_server ∷ []))
    ⊎ ((is_zero (pos 0) ≡ true)
        × IsSession demo_suite server_connect serving
            (run demo_suite server).0
            (run demo_suite server).1.events)
unfolding init_opts
run-server_example = run-server demo_suite server refl

run_and_free-exits_example :
    (code : ℕ) × (t : Traced ℕ) × (run_and_free demo_suite client ≡ exit code t)
    × (code ≤ 255)
    × ((code ≡ 0) ↔ ((run demo_suite client).0 ≡ pos 0))
    × (t.events ≡ free_res ∷ (run demo_suite client).1.events)
run_and_free-exits_example = run_and_free-exits demo_suite demo_sound client

msg-exits_example :
    ((some demo_info ≡ none)
      × ((t : Traced ℕ) × (msg demo_suite 4 2 5000 started ≡ exit 1 t) × (t.events ≡ [])))
    ⊎ EndsWell demo_suite demo_sound (msg demo_suite 4 2 5000 started)
unfolding initial
msg-exits_example = msg-exits demo_suite demo_sound 4 2 5000 started (λ h held. omega arith)
