-- ===== src/Shared/ExitCode.antt =====
-- include/shared.h: `ft_exit_code`. EXIT_FAILURE is <stdlib.h>'s, and a parameter.
use xlibfabric.Base.{
  ℕ, suc, ◌-◌, ◌^◌, ◌≤◌, ◌<◌, ◌≡◌, ◌≢◌, ◌↔◌, refl, Option, none, some, arith, ltb, ◌==◌,
  if◌then◌else◌, ℤ, pos, negsuc,
}

-- The values of a 32-bit `int`, and INT_MIN.
abbrev pub IsInt : ℤ → Type 0
IsInt (pos n) = n < 2 ^ 31
IsInt (negsuc n) = n < 2 ^ 31

abbrev pub int_min : ℤ
int_min = negsuc (2 ^ 31 - 1)

-- `ret < 0 ? -ret : ret`; `none` where the negation overflows, which C leaves undefined.
absret : ℤ → Option ℕ
absret (pos n) = some n
absret (negsuc n) = if suc n == 2 ^ 31 then none else some (suc n)

clip : ℕ → Option ℕ → Option ℕ
clip exit_failure none = none
clip exit_failure (some n) = some (if ltb 255 n then exit_failure else n)

unfoldable pub ft_exit_code : (exit_failure : ℕ) → ℤ → Option ℕ
unfolding absret clip
ft_exit_code exit_failure ret = clip exit_failure (absret ret)

-- For every `int` but the least the exit code is defined and lies from 0 to 255, as the comment on
-- the function asks, and it is 0 exactly when the result is 0, EXIT_FAILURE being from 1 to 255.
pub ft_exit_code-range :
    (exit_failure : ℕ) (ret : ℤ)
    → IsInt ret
    → ret ≢ int_min
    → 0 < exit_failure
    → exit_failure ≤ 255
    → (code : ℕ) × (ft_exit_code exit_failure ret ≡ some code)
      × (code ≤ 255)
      × ((code ≡ 0) ↔ (ret ≡ pos 0))
unfolding ft_exit_code
ft_exit_code-range exit_failure (pos n) range ne low high = (
  if ltb 255 n then exit_failure else n,
  refl,
  ground arith,
  (λ e. ground arith, λ e. ground arith),
)
ft_exit_code-range exit_failure (negsuc n) range ne low high = (
  if ltb 255 (suc n) then exit_failure else suc n,
  ground arith,
  ground arith,
  (λ e. ground arith, λ e. ground arith),
)
