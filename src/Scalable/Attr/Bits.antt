-- ===== src/Scalable/Attr/Bits.antt =====
-- `ctxShiftR` of src/Scalable.hs, beside the C loop that the comment on its caller quotes.
use native.Mathlib.Nat.{div-lt_iff_lt-mul, le-div_iff_mul-le, one-le-pow}
use xlibfabric.Base.{
  ℕ, zero, suc, ◌+◌, ◌/◌, ◌^◌, ◌≤◌, ◌<◌, ◌≡◌, refl, ap, ◌∙◌, inl, inr, Option, none, some, true,
  false, arith, ◌==◌, Bool-cases,
}
use xlibfabric.Scalable.Attr.{ctx_shift_r, documented_shift}

-- The test of both loops.
shift-is_zero : (c k : ℕ) → ((c / 2 ^ k == 0) ≡ true) → c < 2 ^ k
shift-is_zero c k e =
    let small : c / 2 ^ k < 1 = ground arith in
    omega (arith, (div-lt_iff_lt-mul (one-le-pow k 2 (omega arith))).0 small)

shift-not_zero : (c k : ℕ) → ((c / 2 ^ k == 0) ≡ false) → 2 ^ k ≤ c
shift-not_zero c k e =
    let large : 1 ≤ c / 2 ^ k = ground arith in
    omega (arith, (le-div_iff_mul-le (one-le-pow k 2 (omega arith))).0 large)

-- The C loop finds the number of bits of `c`.
documented_shift-bits :
    (fuel c r : ℕ)
    → c < 2 ^ (r + fuel)
    → 2 ^ r ≤ c
    → (k : ℕ) × (documented_shift fuel c r ≡ some (k + 1)) × (2 ^ k ≤ c) × (c < 2 ^ (k + 1))
unfolding documented_shift
documented_shift-bits zero c r small large =
    let e : r + 0 ≡ r = omega arith in let low : c < 2 ^ r = rw e at small in absurd (omega arith)
documented_shift-bits (suc fuel) c r small large = elim (Bool-cases (c / 2 ^ (r + 1) == 0)) [
  | inl done ↦ (r, rw done refl, large, shift-is_zero c (r + 1) done)
  | inr more ↦
      let e : r + suc fuel ≡ (r + 1) + fuel = omega arith in
      rw more (documented_shift-bits fuel c (r + 1) (rw e at small) (shift-not_zero c (r + 1) more))
]

abbrev next : Option ℕ → Option ℕ
next none = none
next (some k) = some (k + 1)

-- The Haskell recursion makes the same tests, and counts one more.
ctx_shift_r-documented :
    (fuel c r : ℕ) → ctx_shift_r fuel c (r + 1) ≡ next (documented_shift fuel c r)
unfolding ctx_shift_r documented_shift
ctx_shift_r-documented zero c r = refl
ctx_shift_r-documented (suc fuel) c r = ground (arith, ctx_shift_r-documented fuel c (r + 1))

ctx_shift_r-positive :
    (fuel c : ℕ) → 0 < c → ctx_shift_r (suc fuel) c 0 ≡ next (documented_shift fuel c 0)
unfolding ctx_shift_r
ctx_shift_r-positive fuel c positive =
    let whole : c / 2 ^ 0 ≡ c = omega arith in
    let more : (c / 2 ^ 0 == 0) ≡ false = rw whole (ground arith) in
    rw more (ctx_shift_r-documented fuel c 0)

-- For every positive count of contexts that fits an `int`, both functions end within 33 tests. The C
-- loop gives the number of bits of the count, and the Haskell function one more.
pub ctx_shift_r-bits :
    (c : ℕ)
    → 0 < c
    → c < 2 ^ 31
    → (k : ℕ) × (2 ^ k ≤ c)
      × (c < 2 ^ (k + 1))
      × (documented_shift 32 c 0 ≡ some (k + 1))
      × (ctx_shift_r 33 c 0 ≡ some (k + 2))
ctx_shift_r-bits c positive fits =
    let (k, found, low, high) = documented_shift-bits 32 c 0 (omega arith) (omega arith) in
    let one_more : (k + 1) + 1 ≡ k + 2 = omega arith in
    (k, low, high, found, ctx_shift_r-positive 32 c positive ∙ ap next found ∙ ap some one_more)
