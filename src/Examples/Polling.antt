-- ===== src/Examples/Polling.antt =====
-- `wait_for_comp` at concrete hosts.
use xlibfabric.Base.{
  ℕ, ◌+◌, ◌≡◌, refl, ◌↔◌, ◌⊎◌, arith, List, [], ◌∷◌, Option, none, some, Bool, false, ◌==◌,
  if◌then◌else◌, pos, negsuc,
}
use xlibfabric.Machine.{Host, State, update, vcall, load, invoke}
use xlibfabric.Eq.{fi_cq_read}
use xlibfabric.Scalable.Wait.{wait_for_comp}
use xlibfabric.Scalable.Wait.Polls.{wait_for_comp-returns, wait_for_comp-Starves}

abbrev is_first : Option ℕ → Bool
is_first none = false
is_first (some n) = n == 0

-- A provider whose first call fails with -FI_EAGAIN; the later ones return 1.
abbrev late_host : Host
late_host = record {
  call = λ fn args c. if is_first (c 8) then some (negsuc 10, update c 8 1) else some (pos 1, c);
  fi_dupinfo = 7;
  enosys = 38;
  allocate = λ bytes c. (50000, c);
}

abbrev idle : State
idle = record { cell = λ q. if q == 8 then some 0 else some (q + 1000); sp = 100000 }

abbrev asked : State
asked = record { cell = update idle.cell 8 1; sp = 100000 }

abbrev one : ℕ
one = 1

wait_for_comp-returns_example :
    (r : ℕ) × (wait_for_comp late_host 2 16 idle ≡ some (some (pos r), asked))
    × ((r ≡ 0) ↔ ((one ≡ 1) ⊎ (one ≡ 0)))
    × ((r ≡ 0) ⊎ (r ≡ 1))
unfolding fi_cq_read vcall load invoke
wait_for_comp-returns_example =
    wait_for_comp-returns late_host 16 idle 2 1 1 asked (omega arith) (10, asked, refl, refl)

-- A provider that stores an entry, at its second argument.
abbrev second : List ℕ → ℕ
second [] = 0
second (x ∷ []) = 0
second (x ∷ y ∷ ys) = y

abbrev storing_host : Host
storing_host = record {
  call = λ fn args c. some (pos 1, update c (second args) 5);
  fi_dupinfo = 7;
  enosys = 38;
  allocate = λ bytes c. (50000, c);
}

-- A provider on which every call fails.
abbrev broken_host : Host
broken_host = record {
  call = λ fn args c. some (negsuc 4, c);
  fi_dupinfo = 7;
  enosys = 38;
  allocate = λ bytes c. (50000, c);
}

wait_for_comp-Starves_example :
    (s' : State) × (wait_for_comp broken_host 1000 16 idle ≡ some (none, s'))
unfolding fi_cq_read vcall load invoke
wait_for_comp-Starves_example =
    wait_for_comp-Starves broken_host 16 idle 1000 (λ s. s ≡ idle) (λ s p. (4, s, rw p refl, p))
      refl
