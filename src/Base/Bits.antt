-- ===== src/Base/Bits.antt =====
-- `|` of disjoint fields, `&` with a mask and `&` with one bit, as arithmetic, at every width.
-- The native operations mean a recursion on binary digits; both laws go from `a / 2` to `a`.
use Prim.Native.Nat.{
  ℕ, zero, suc, ◌+◌, ◌-◌, ◌*◌, ◌/◌, ◌%◌, ◌^◌, ◌≤◌, ◌<◌, min, max, bit_and, bit_or, digits, bitwise,
  bit_and-bitwise, bit_or-bitwise,
}
use mathlib.Core.Path.{◌≡◌, refl, sym, ap, ◌∙◌}
use native.Mathlib.Nat.{
  le_refl, add-zero, add-suc, mul_assoc, mul_comm, pow-suc, one-le-pow, div-div-eq-div-mul,
}
use native.Mathlib.Omega.{arith}

-- Fuel beyond the first operand changes nothing.
spare_fuel :
    (g : ℕ → ℕ) (op : ℕ → ℕ → ℕ) (bound x y fuel : ℕ)
    → fuel ≤ bound
    → x ≤ fuel
    → digits g op fuel x y ≡ bitwise g op x y
spare_fuel g op bound zero y zero low high = refl
spare_fuel g op bound zero y (suc fuel) low high = refl
spare_fuel g op bound (suc x) y zero low high = absurd (omega arith)
spare_fuel g op zero (suc x) y (suc fuel) low high = absurd (omega arith)
spare_fuel g op (suc bound) (suc x) y (suc fuel) low high =
    let half = suc x / 2 in
    let long = spare_fuel g op bound half (y / 2) fuel (omega arith) (omega arith) in
    let short = spare_fuel g op bound half (y / 2) x (omega arith) (omega arith) in
    ap (λ (h : ℕ). h * 2 + op (suc x % 2) (y % 2)) (long ∙ sym short)

-- The lowest digit of a result, and the rest.
lowest_digit :
    (g : ℕ → ℕ) (op : ℕ → ℕ → ℕ) (y x : ℕ)
    → bitwise g op (suc x) y ≡ op (suc x % 2) (y % 2) + 2 * bitwise g op (suc x / 2) (y / 2)
lowest_digit g op y x =
    omega (arith, spare_fuel g op x (suc x / 2) (y / 2) x (le_refl x) (omega arith))

bit_or_step : (x y : ℕ) → bit_or x y ≡ max (x % 2) (y % 2) + 2 * bit_or (x / 2) (y / 2)
bit_or_step zero y = simp bit_or-bitwise (omega arith)
bit_or_step (suc x) y = simp bit_or-bitwise (lowest_digit (λ v. v) max y x)

bit_and_step : (x y : ℕ) → bit_and x y ≡ min (x % 2) (y % 2) + 2 * bit_and (x / 2) (y / 2)
bit_and_step zero y = simp bit_and-bitwise (omega arith)
bit_and_step (suc x) y = simp bit_and-bitwise (lowest_digit (λ v. 0) min y x)

bit_or-zero_below : (n a : ℕ) → a ≤ n → bit_or a 0 ≡ a
bit_or-zero_below n zero h = refl
bit_or-zero_below zero (suc a) h = absurd (omega arith)
bit_or-zero_below (suc n) (suc a) h =
    omega (arith, bit_or_step (suc a) 0, bit_or-zero_below n (suc a / 2) (omega arith))

pub bit_or-zero : (a : ℕ) → bit_or a 0 ≡ a
bit_or-zero a = bit_or-zero_below a a (le_refl a)

bit_and-zero_below : (n a : ℕ) → a ≤ n → bit_and a 0 ≡ 0
bit_and-zero_below n zero h = refl
bit_and-zero_below zero (suc a) h = absurd (omega arith)
bit_and-zero_below (suc n) (suc a) h =
    omega (arith, bit_and_step (suc a) 0, bit_and-zero_below n (suc a / 2) (omega arith))

pub bit_and-zero : (a : ℕ) → bit_and a 0 ≡ 0
bit_and-zero a = bit_and-zero_below a a (le_refl a)

double_shift : (v n : ℕ) → v * 2 ^ suc n ≡ 2 * (v * 2 ^ n)
double_shift v n = omega (arith, mul_assoc v (2 ^ n) 2, ap (λ (t : ℕ). v * t) (pow-suc 2 n))

-- A high field over `n` low bits: `(high << n) | low` is a sum when `low` has no other bits.
pub bit_or_fields : (n high low : ℕ) → low < 2 ^ n → bit_or (high * 2 ^ n) low ≡ high * 2 ^ n + low
bit_or_fields zero high low small = ground (arith, bit_or-zero high)
bit_or_fields (suc n) high low small =
    let rest = bit_or_fields n high (low / 2) (omega arith) in
    ground (arith, rest, double_shift high n, bit_or_step (high * 2 ^ suc n) low)

-- The low field of the two, by a mask of `n` bits.
bit_and_fields : (n high low : ℕ) → low < 2 ^ n → bit_and (high * 2 ^ n + low) (2 ^ n - 1) ≡ low
bit_and_fields zero high low small = ground (arith, bit_and-zero (high * 1 + low))
bit_and_fields (suc n) high low small =
    let rest = bit_and_fields n high (low / 2) (omega arith) in
    let digit = bit_and_step (high * 2 ^ suc n + low) (2 ^ suc n - 1) in
    ground (arith, rest, digit, double_shift high n, one-le-pow n 2, pow-suc 2 n)

-- A mask of `n` low bits is the remainder by `2 ^ n`.
pub bit_and_mask : (n v : ℕ) → bit_and v (2 ^ n - 1) ≡ v % 2 ^ n
bit_and_mask n v =
    let split = bit_and_fields n (v / 2 ^ n) (v % 2 ^ n) in ground (split, arith, one-le-pow n 2)

half_shift : (a k : ℕ) → a / 2 ^ suc k ≡ a / 2 / 2 ^ k
half_shift a k = rw (pow-suc 2 k, mul_comm (2 ^ k) 2) (sym (div-div-eq-div-mul a 2 (2 ^ k)))

-- A test of one bit looks at that binary digit and at no other.
pub bit_and_bit : (k a : ℕ) → bit_and a (2 ^ k) ≡ a / 2 ^ k % 2 * 2 ^ k
bit_and_bit zero a = ground (arith, bit_and_step a 1, bit_and-zero (a / 2))
bit_and_bit (suc k) a = ground (
  arith,
  bit_and_step a (2 ^ suc k),
  pow-suc 2 k,
  half_shift a k,
  bit_and_bit k (a / 2),
  double_shift (a / 2 / 2 ^ k % 2) k,
)

-- Setting one bit adds it, if it was clear, and changes no other.
pub bit_or_bit : (k a : ℕ) → bit_or a (2 ^ k) ≡ a + (1 - a / 2 ^ k % 2) * 2 ^ k
bit_or_bit zero a = ground (arith, bit_or_step a 1, bit_or-zero (a / 2))
bit_or_bit (suc k) a = ground (
  arith,
  bit_or_step a (2 ^ suc k),
  pow-suc 2 k,
  half_shift a k,
  bit_or_bit k (a / 2),
  double_shift (1 - a / 2 / 2 ^ k % 2) k,
)

-- `x & ~1` on 32 bits.
pub bit_and_even : (a : ℕ) → a < 2 ^ 32 → bit_and a (2 ^ 32 - 2) ≡ a / 2 * 2
bit_and_even a h = ground (arith, bit_and_step a (2 ^ 32 - 2), bit_and_mask 31 (a / 2))

zero-bit_or : (b : ℕ) → bit_or 0 b ≡ b
zero-bit_or b = bit_or-bitwise 0 b

bit_or_comm_below : (n a b : ℕ) → a ≤ n → bit_or a b ≡ bit_or b a
bit_or_comm_below n zero b h = omega (arith, zero-bit_or b, bit_or-zero b)
bit_or_comm_below zero (suc a) b h = absurd (omega arith)
bit_or_comm_below (suc n) (suc a) b h = omega (
  arith,
  bit_or_step (suc a) b,
  bit_or_step b (suc a),
  bit_or_comm_below n (suc a / 2) (b / 2) (omega arith),
)

pub bit_or_comm : (a b : ℕ) → bit_or a b ≡ bit_or b a
bit_or_comm a b = bit_or_comm_below a a b (le_refl a)

pub pow-add : (a b : ℕ) → 2 ^ (a + b) ≡ 2 ^ a * 2 ^ b
pow-add a zero = rw add-zero (omega arith)
pow-add a (suc b) =
    rw (add-suc a b, pow-suc 2 (a + b), pow-suc 2 b, pow-add a b) (mul_assoc (2 ^ a) (2 ^ b) 2)

zero-bit_and : (b : ℕ) → bit_and 0 b ≡ 0
zero-bit_and b = bit_and-bitwise 0 b

bit_and_comm_below : (n a b : ℕ) → a ≤ n → bit_and a b ≡ bit_and b a
bit_and_comm_below n zero b h = omega (arith, zero-bit_and b, bit_and-zero b)
bit_and_comm_below zero (suc a) b h = absurd (omega arith)
bit_and_comm_below (suc n) (suc a) b h =
    let halves = bit_and_comm_below n (suc a / 2) (b / 2) (omega arith) in
    omega (arith, halves, bit_and_step (suc a) b, bit_and_step b (suc a))

pub bit_and_comm : (a b : ℕ) → bit_and a b ≡ bit_and b a
bit_and_comm a b = bit_and_comm_below a a b (le_refl a)
