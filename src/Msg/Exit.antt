-- ===== src/Msg/Exit.antt =====
-- The exit of include/msg.c: the option loop ends, the resources are freed, and the exit code is in
-- range.
use xlibfabric.Base.{
  ℕ, zero, suc, ◌≤◌, ◌<◌, ◌≡◌, ◌≢◌, refl, ◌↔◌, ◌⊎◌, inl, inr, Bool, true, false, ◌||◌, none, some,
  List, [], ◌∷◌, arith, Bool-cases, Option-cases, ◌==◌, is_zero, if◌then◌else◌, ℤ, pos,
}
use xlibfabric.Fabric.Info.{FiInfo}
use xlibfabric.Shared.ExitCode.{IsInt, int_min, ft_exit_code-range}
use xlibfabric.Msg.{
  Event, parse_addr_opts, parse_info, usage, send_recv_greeting, start_server, server_connect,
  client_connect, free_res, Process, Suite, Traced, Outcome, exit, finished, asked_usage, act,
  and_then, greet, connect, run, parse, prepare, status, run_and_free, after_options, initial, msg,
}

-- What the example relies on: options run out, and parsing one brings none back; calls return an
-- `int` other than the least; EXIT_FAILURE is an exit code other than 0.
pub record IsSound (suite : Suite) : Type 0 where
  pub remaining : Process suite.World → ℕ
  pub getopt_ends :
      (p : Process suite.World) (c : ℕ)
      → (suite.getopt p).0 ≡ some c
      → remaining (suite.getopt p).1 < remaining p
  pub addr_opts_keep :
      (p : Process suite.World) → remaining (suite.effect parse_addr_opts p).1 ≤ remaining p
  pub info_keeps : (p : Process suite.World) → remaining (suite.effect parse_info p).1 ≤ remaining p
  pub is_int : (e : Event) (p : Process suite.World) → IsInt (suite.effect e p).0
  pub not_min : (e : Event) (p : Process suite.World) → (suite.effect e p).0 ≢ int_min
  pub failure_low : 0 < suite.exit_failure
  pub failure_high : suite.exit_failure ≤ 255

module _ (suite : Suite) (sound : IsSound suite) where
  open suite use {World, exit_failure, getopt, effect}

  -- The loop over the options ends.
  parse-ends :
      (fuel : ℕ) (t : Traced World)
      → sound.remaining t.process < fuel
      → (t' : Traced World) × (before : List Event) × ((parse suite fuel t ≡ finished t')
          ⊎ ((parse suite fuel t ≡ asked_usage t') × (t'.events ≡ usage ∷ before)))
  unfolding parse
  parse-ends zero t h = absurd (omega arith)
  parse-ends (suc fuel) t h = elim (Option-cases (getopt t.process).0) [
    | inl ends ↦ (record t { process = (getopt t.process).1 }, [], rw (ends, parse) (inl refl))
    | inr (c, more) ↦ elim (Bool-cases ((c == b'?') || (c == b'h'))) [
      | inl help ↦ (
        (act suite usage (record t { process = (getopt t.process).1 })).1,
        t.events,
        rw (more, help, parse) (inr (refl, refl)),
      )
      | inr option ↦
          rw (more, option, parse)
            (parse-ends fuel _ (
              omega (
                arith,
                sound.getopt_ends t.process c more,
                sound.addr_opts_keep (getopt t.process).1,
                sound.info_keeps (effect parse_addr_opts (getopt t.process).1).1,
              )))
    ]
  ]

  -- A C `int` other than the least.
  abbrev IsSafe : ℤ × Traced World → Type 0
  IsSafe a = IsInt a.0 × (a.0 ≢ int_min)

  either-IsSafe :
      (b : Bool) (x y : ℤ × Traced World) → IsSafe x → IsSafe y → IsSafe (if b then x else y)
  either-IsSafe true x y safe_x safe_y = safe_x
  either-IsSafe false x y safe_x safe_y = safe_y

  act-IsSafe : (e : Event) (t : Traced World) → IsSafe (act suite e t)
  act-IsSafe e t = (sound.is_int e t.process, sound.not_min e t.process)

  and_then-IsSafe :
      (a : ℤ × Traced World) (f : Traced World → ℤ × Traced World)
      → IsSafe a
      → ((t : Traced World) → IsSafe (f t))
      → IsSafe (and_then suite a f)
  and_then-IsSafe (ret, t) f safe next = either-IsSafe (is_zero ret) _ _ (next t) safe

  greet-IsSafe : (t : Traced World) → IsSafe (greet suite t)
  unfolding greet
  greet-IsSafe t = act-IsSafe send_recv_greeting t

  connect-IsSafe : (t : Traced World) → IsSafe (connect suite t)
  unfolding connect
  connect-IsSafe t =
      and_then-IsSafe _ (greet suite)
        (either-IsSafe (t.process.opts.dst_addr == 0) _ _ (act-IsSafe server_connect t)
          (act-IsSafe client_connect t))
        greet-IsSafe

  run-IsSafe : (t : Traced World) → IsSafe (run suite t)
  unfolding run
  run-IsSafe t =
      and_then-IsSafe _ (connect suite)
        (either-IsSafe (t.process.opts.dst_addr == 0) _ _ (act-IsSafe start_server t)
          (omega arith, λ e. ground arith))
        connect-IsSafe

  -- With a sound test suite, after the options the program always ends: it exits with a code from 0
  -- to 255, which is 0 exactly if `run` returned 0, and `ft_free_res` was the last call, however
  -- `run` went.
  pub run_and_free-exits :
      (t : Traced World)
      → (code : ℕ) × (t' : Traced World) × (run_and_free suite t ≡ exit code t')
        × (code ≤ 255)
        × ((code ≡ 0) ↔ ((run suite t).0 ≡ pos 0))
        × (t'.events ≡ free_res ∷ (run suite t).1.events)
  unfolding run_and_free status
  run_and_free-exits t =
      let safe = run-IsSafe t in
      let (code, same, low, success) =
        ft_exit_code-range exit_failure (run suite t).0 safe.0 safe.1 sound.failure_low
          sound.failure_high in
      (code, (act suite free_res (run suite t).1).1, rw same refl, low, success, refl)

  -- An exit with a code in range after the usage text or after `ft_free_res`.
  abbrev pub EndsWell : Outcome World → Type 0
  EndsWell o =
      (code : ℕ) × (t : Traced World) × (before : List Event) × (o ≡ exit code t)
      × (code ≤ 255)
      × ((t.events ≡ usage ∷ before) ⊎ (t.events ≡ free_res ∷ before))

  finished-EndsWell :
      (argc argv : ℕ) (t : Traced World) → EndsWell (after_options suite argc argv (finished t))
  unfolding after_options
  finished-EndsWell argc argv t =
      let (code, u, same, low, _, freed) =
        run_and_free-exits (record t { process = prepare suite argc argv t.process }) in
      (
        code,
        u,
        (run suite (record t { process = prepare suite argc argv t.process })).1.events,
        same,
        low,
        inr freed,
      )

  asked_usage-EndsWell :
      (argc argv : ℕ) (t : Traced World) (before : List Event)
      → t.events ≡ usage ∷ before
      → EndsWell (after_options suite argc argv (asked_usage t))
  unfolding after_options
  asked_usage-EndsWell argc argv t before e =
      (exit_failure, t, before, refl, sound.failure_high, inl e)

  -- With a sound test suite and more rounds than the options can take, the program ends. If no
  -- hints can be allocated it exits with EXIT_FAILURE before any other call; otherwise it exits
  -- with a code from 0 to 255, right after the usage text or right after `ft_free_res`.
  pub msg-exits :
      (fuel argc argv : ℕ) (p : Process World)
      → ((h : FiInfo)
          → (suite.fi_allocinfo p.world).0 ≡ some h
          → sound.remaining
              (record (initial suite argc argv
                (record p { world = (suite.fi_allocinfo p.world).1 })) { hints = h })
            < fuel)
      → (((suite.fi_allocinfo p.world).0 ≡ none)
          × ((t : Traced World) × (msg suite fuel argc argv p ≡ exit exit_failure t)
              × (t.events ≡ [])))
        ⊎ EndsWell (msg suite fuel argc argv p)
  unfolding msg
  msg-exits fuel argc argv p enough =
      let (hints, w) = suite.fi_allocinfo p.world in
      let started = initial suite argc argv (record p { world = w }) in
      elim (Option-cases (suite.fi_allocinfo p.world).0) [
        | inl failed ↦
            inl (failed, (record { process = started; events = [] }, rw (failed, msg) refl, refl))
        | inr (h, some_hints) ↦
            let begun : Traced World = record {
              process = record started { hints = h };
              events = [];
            } in
            let (t, before, ends) = parse-ends fuel begun (enough h some_hints) in
            elim ends [
              | inl e ↦ rw (some_hints, msg) (inr (rw e (finished-EndsWell argc argv t)))
              | inr (e, last) ↦
                  rw (some_hints, msg) (inr (rw e (asked_usage-EndsWell argc argv t before last)))
            ]
      ]
