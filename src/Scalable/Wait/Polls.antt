-- ===== src/Scalable/Wait/Polls.antt =====
-- When `wait_for_comp` of src/Scalable.hs returns, when it does not, and where it agrees with the C
-- function that its comment quotes.
use xlibfabric.Base.{
  ℕ, zero, suc, ◌-◌, ◌<◌, ◌≡◌, refl, ap, ◌∙◌, ◌↔◌, ◌⊎◌, Option, none, some, Bool, true, false,
  arith, ℤ, if◌then◌else◌, ◌==◌, pos, negsuc,
}
use xlibfabric.Machine.{Host, State, M, alloca}
use xlibfabric.Machine.Dispatch.{>>=-some}
use xlibfabric.Eq.{fi_cq_read}
use xlibfabric.Scalable.Wait.{verdict, repeats, do_while, judged, wait_for_comp}

-- From `s` the action is run `n` times with a result that `again` repeats on, and then once more, with
-- the result `ret`, which ends the loop in `s'`.
abbrev pub Polls : M ℤ → (ℤ → Bool) → (n : ℕ) → State → ℤ → State → Type 0
Polls action again zero s ret s' = (action s ≡ some (ret, s')) × (again ret ≡ false)
Polls action again (suc n) s ret s' =
    (x : ℤ) × (t : State) × (action s ≡ some (x, t))
    × (again x ≡ true)
    × Polls action again n t ret s'

do_while-Polls :
    (fuel n : ℕ) (action : M ℤ) (again : ℤ → Bool) (s s' : State) (ret : ℤ)
    → n < fuel
    → Polls action again n s ret s'
    → do_while fuel action again s ≡ some (some ret, s')
unfolding do_while
do_while-Polls zero n action again s s' ret short polls = absurd (omega arith)
do_while-Polls (suc fuel) zero action again s s' ret short (e, last) = rw (e, do_while) (rw last)
do_while-Polls (suc fuel) (suc n) action again s s' ret short (x, t, e, more, rest) =
    rw (e, do_while) (rw more (do_while-Polls fuel n action again t s' ret (omega arith) rest))

-- Where every read gives a result to repeat on, in every state that the reads lead to.
abbrev pub Starves : M ℤ → (ℤ → Bool) → (State → Type 0) → Type 0
Starves action again P =
    (s : State) → P s → (x : ℤ) × (t : State) × (action s ≡ some (x, t)) × (again x ≡ true) × P t

do_while-Starves :
    (fuel : ℕ) (action : M ℤ) (again : ℤ → Bool) (P : State → Type 0) (s : State)
    → Starves action again P
    → P s
    → (s' : State) × (do_while fuel action again s ≡ some (none, s'))
unfolding do_while
do_while-Starves zero action again P s starves p = (s, refl)
do_while-Starves (suc fuel) action again P s starves p =
    let (x, t, e, more, q) = starves s p in
    let (s', rest) = do_while-Starves fuel action again P t starves q in
    (s', rw (e, do_while) (rw more rest))

verdict_pos : (n : ℕ) → verdict (pos n) ≡ pos (if n == 1 then 0 else n)
unfolding verdict
verdict_pos n = ground arith

abbrev judge : Option ℤ → Option ℤ
judge none = none
judge (some ret) = some (verdict ret)

-- From `s` the action is run `n` times with a negative result, whichever, and then once more, with the
-- result `ret`, which is not negative, and ends in `s'`.
abbrev pub FailsThen : M ℤ → (n : ℕ) → State → (ret : ℕ) → State → Type 0
FailsThen action zero s ret s' = action s ≡ some (pos ret, s')
FailsThen action (suc n) s ret s' =
    (error : ℕ) × (t : State) × (action s ≡ some (negsuc error, t)) × FailsThen action n t ret s'

FailsThen-Polls :
    (action : M ℤ) (n : ℕ) (s : State) (ret : ℕ) (s' : State)
    → FailsThen action n s ret s'
    → Polls action repeats n s (pos ret) s'
FailsThen-Polls action zero s ret s' e = (e, refl)
FailsThen-Polls action (suc n) s ret s' (error, t, e, rest) =
    (negsuc error, t, e, refl, FailsThen-Polls action n t ret s' rest)

-- Where every run of the action gives a negative result, in every state that the runs lead to.
abbrev pub Fails : M ℤ → (State → Type 0) → Type 0
Fails action P =
    (s : State) → P s → (error : ℕ) × (t : State) × (action s ≡ some (negsuc error, t)) × P t

Fails-Starves : (action : M ℤ) (P : State → Type 0) → Fails action P → Starves action repeats P
Fails-Starves action P fails s p = let (error, t, e, q) = fails s p in (negsuc error, t, e, refl, q)

module _ (host : Host) (cq : ℕ) (s : State) where
  -- The read that the loop repeats.
  abbrev pub read : (comp : ℕ) → M ℤ
  read comp = fi_cq_read host cq comp 1

  -- The block of no bytes that the Haskell function is given, and the state in which its reads start.
  abbrev pub block : ℕ
  block = (host.allocate 0 s.cell).0

  abbrev pub given : State
  given = record s { cell = (host.allocate 0 s.cell).1 }

  -- The entry of the C function, and the state in which its reads start.
  abbrev pub local : ℕ
  local = s.sp - 8

  abbrev pub below : State
  below = record s { sp = local }

  alloca-do_while :
      (fuel : ℕ) (again : ℤ → Bool) (done : Option ℤ) (s' : State)
      → do_while fuel (read block) again given ≡ some (done, s')
      → alloca host 0 (λ comp. judged (do_while fuel (read comp) again)) s ≡ some (judge done, s')
  unfolding alloca
  alloca-do_while fuel again none s' e = >>=-some (do_while fuel (read block) again) _ e
  alloca-do_while fuel again (some ret) s' e = >>=-some (do_while fuel (read block) again) _ e

  returns :
      (fuel n : ℕ) (ret : ℤ) (s' : State)
      → n < fuel
      → Polls (read block) repeats n given ret s'
      → wait_for_comp host fuel cq s ≡ some (some (verdict ret), s')
  unfolding wait_for_comp
  returns fuel n ret s' short polls =
      alloca-do_while fuel repeats (some ret) s'
        (do_while-Polls fuel n (read block) repeats given s' ret short polls)

  -- If `n` reads give negative results, whatever the errors, and the next one gives a result that is not
  -- negative, and there are more than `n` rounds, `wait_for_comp` returns right after that read; the
  -- result is 0 if that read gave 1, and otherwise it is what the read gave, so that it is 0 exactly
  -- for 1 and 0.
  pub wait_for_comp-returns :
      (fuel n ret : ℕ) (s' : State)
      → n < fuel
      → FailsThen (read block) n given ret s'
      → (r : ℕ) × (wait_for_comp host fuel cq s ≡ some (some (pos r), s'))
        × ((r ≡ 0) ↔ ((ret ≡ 1) ⊎ (ret ≡ 0)))
        × ((r ≡ 0) ⊎ (r ≡ ret))
  unfolding verdict
  wait_for_comp-returns fuel n ret s' short fails = (
    if ret == 1 then 0 else ret,
    returns fuel n (pos ret) s' short (FailsThen-Polls (read block) n given ret s' fails)
        ∙ ap (λ r. some (some r, s')) (verdict_pos ret),
    (λ e. ground arith, λ e. ground arith),
    ground arith,
  )

  -- If every read fails, with whatever error, `wait_for_comp` does not return: after any number of
  -- rounds it is still waiting.
  pub wait_for_comp-Starves :
      (fuel : ℕ) (P : State → Type 0)
      → Fails (read block) P
      → P given
      → (s' : State) × (wait_for_comp host fuel cq s ≡ some (none, s'))
  unfolding wait_for_comp
  wait_for_comp-Starves fuel P fails p =
      let (s', e) =
        do_while-Starves fuel (read block) repeats P given (Fails-Starves (read block) P fails) p in
      (s', alloca-do_while fuel repeats none s' e)
