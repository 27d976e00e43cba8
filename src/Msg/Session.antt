-- ===== src/Msg/Session.antt =====
-- The calls that `run` of include/msg.c makes.
use xlibfabric.Base.{
  ◌≡◌, refl, ◌⊎◌, inl, inr, true, false, List, ◌∷◌, Bool-cases, ◌==◌, if◌then◌else◌, ℤ, is_zero,
}
use xlibfabric.Msg.{
  Event, start_server, server_connect, client_connect, send_recv_greeting, shutdown, Process, Suite,
  Traced, act, and_then, greet, connect, run,
}

-- The connection that a process tries.
abbrev pub connect_event : {World : Type 0} → Process World → Event
connect_event p = if p.opts.dst_addr == 0 then server_connect else client_connect

module _ (suite : Suite) where
  open suite use {World}

  -- From the process and calls `before` to the result `ret` and the calls `after`: the connection `c` is
  -- tried; if it is refused, its result is the result and nothing follows; otherwise the greeting and
  -- the shutdown follow, and the result is that of the greeting.
  abbrev pub IsSession : Event → (before : Traced World) → ℤ → (after : List Event) → Type 0
  IsSession c before ret after =
      let tried = act suite c before in
      ((is_zero tried.0 ≡ false) × (ret ≡ tried.0) × (after ≡ c ∷ before.events))
      ⊎ ((is_zero tried.0 ≡ true)
          × (ret ≡ (act suite send_recv_greeting tried.1).0)
          × (after ≡ shutdown ∷ send_recv_greeting ∷ c ∷ before.events))

  attempt-IsSession :
      (c : Event) (t : Traced World)
      → let done = and_then suite (act suite c t) (greet suite) in
        IsSession c t done.0 done.1.events
  unfolding greet
  attempt-IsSession c t = elim (Bool-cases (is_zero (act suite c t).0)) [
    | inl taken ↦ rw taken (inr (refl, refl, refl))
    | inr refused ↦ rw refused (inl (refl, refl, refl))
  ]

  connect-IsSession :
      (t : Traced World)
      → IsSession (connect_event t.process) t (connect suite t).0 (connect suite t).1.events
  unfolding connect
  connect-IsSession t = elim (Bool-cases (t.process.opts.dst_addr == 0)) [
    | inl server ↦ rw server (attempt-IsSession server_connect t)
    | inr client ↦ rw client (attempt-IsSession client_connect t)
  ]

  -- With a destination address `run` tries to connect as a client and never starts a server. If the
  -- connection is refused, `run` returns its result and makes no other call; if it is not, the greeting
  -- and the shutdown follow, and the result is that of the greeting.
  pub run-client :
      (t : Traced World)
      → (t.process.opts.dst_addr == 0) ≡ false
      → IsSession client_connect t (run suite t).0 (run suite t).1.events
  unfolding run
  run-client t client = rw client (rw client at (connect-IsSession t))

  -- Without a destination address `run` first starts a server. If that fails, with a result that is not
  -- 0, `run` returns this result and makes no other call; otherwise a session follows, of the kind that
  -- the address then asks for: if its connection is refused, `run` returns the result of that and makes
  -- no other call, and if it is not, the greeting and the shutdown follow, and the result is that of the
  -- greeting.
  pub run-server :
      (t : Traced World)
      → (t.process.opts.dst_addr == 0) ≡ true
      → let started = act suite start_server t in
        ((is_zero started.0 ≡ false)
          × ((run suite t).0 ≡ started.0)
          × ((run suite t).1.events ≡ start_server ∷ t.events))
        ⊎ ((is_zero started.0 ≡ true)
            × IsSession
                (connect_event started.1.process)
                started.1
                (run suite t).0
                (run suite t).1.events)
  unfolding run
  run-server t server =
      let started = act suite start_server t in
      elim (Bool-cases (is_zero started.0)) [
        | inl up ↦ rw (server, up) (inr (refl, connect-IsSession started.1))
        | inr down ↦ rw (server, down) (inl (refl, refl, refl))
      ]
