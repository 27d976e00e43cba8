-- ===== src/Domain/Address.antt =====
-- include/fi_domain.h: `fi_rx_addr`, which puts a receive context's index above an address.
use native.Mathlib.Nat.{
  mod-eq_of_lt, mod-lt, add-zero, div-eq_of_lt, div-lt_iff_lt-mul, mul-add-div_right,
  mul-add-mod_self_right, div-add-mod', one-le-pow,
}
use xlibfabric.Base.{
  ℕ, ◌+◌, ◌-◌, ◌*◌, ◌/◌, ◌%◌, ◌^◌, ◌≤◌, ◌<◌, ◌≡◌, sym, ap, ◌∙◌, Option, none, some, arith, bit_or,
  ltb, ◌==◌, ◌||◌, if◌then◌else◌, ℤ, pos, negsuc,
}
use xlibfabric.Shared.ExitCode.{IsInt}
use xlibfabric.Base.Bits.{bit_or_fields, pow-add}

-- `(uint64_t) n` of an `int`.
abbrev to_uint64 : ℤ → ℕ
to_uint64 (pos n) = n % 2 ^ 64
to_uint64 (negsuc n) = 2 ^ 64 - 1 - n % 2 ^ 64

-- `((uint64_t) rx_index << (64 - rx_ctx_bits)) | fi_addr`; `none` where C leaves the shift undefined,
-- by 64 bits or by a negative number of them. The arguments `rx_index` and `rx_ctx_bits` are of type
-- `int`, and the second is not negative.
unfoldable pub fi_rx_addr : (fi_addr : ℕ) (rx_index : ℤ) (rx_ctx_bits : ℕ) → Option ℕ
fi_rx_addr fi_addr rx_index rx_ctx_bits =
    if (rx_ctx_bits == 0) || ltb 64 rx_ctx_bits
    then none
    else some (bit_or ((to_uint64 rx_index * 2 ^ (64 - rx_ctx_bits)) % 2 ^ 64) fi_addr)

-- An address of 64 bits is split into its index and the rest by a width.
abbrev pub index_of : ℕ → ℕ → ℕ
index_of bits w = w / 2 ^ (64 - bits)

abbrev pub base_of : ℕ → ℕ → ℕ
base_of bits w = w % 2 ^ (64 - bits)

add-sub_width : (bits : ℕ) → bits ≤ 64 → bits + (64 - bits) ≡ 64
add-sub_width bits h = omega arith

unit_pos : (n : ℕ) → 0 < 2 ^ n
unit_pos n = one-le-pow n 2 (omega arith)

widths : (bits : ℕ) → bits ≤ 64 → 2 ^ bits * 2 ^ (64 - bits) ≡ 2 ^ 64
widths bits h = sym (pow-add bits (64 - bits)) ∙ ap (λ (n : ℕ). 2 ^ n) (add-sub_width bits h)

row_fits : (i m q : ℕ) → i < m → i * q + q ≤ m * q
row_fits i m q h = grind arith

index_fits :
    (i bits : ℕ) → bits ≤ 64 → i < 2 ^ bits → i * 2 ^ (64 - bits) + 2 ^ (64 - bits) ≤ 2 ^ 64
index_fits i bits h fits =
    omega (arith, widths bits h, row_fits i (2 ^ bits) (2 ^ (64 - bits)) fits)

row_parts : (i r q : ℕ) → r < q → ((i * q + r) / q ≡ i) × ((i * q + r) % q ≡ r)
row_parts i r q h = (
  mul-add-div_right (omega arith) i r ∙ (rw (div-eq_of_lt h) (add-zero i)),
  mul-add-mod_self_right i q r ∙ mod-eq_of_lt h,
)

wrap_free : (n : ℕ) → n < 2 ^ 64 → n % 2 ^ 64 ≡ n
wrap_free n h = omega arith

int_word : (n : ℕ) → IsInt (pos n) → n < 2 ^ 64
int_word n is_int = omega arith

module _ (bits index addr : ℕ) (some_bits : 0 < bits) (width : bits ≤ 64)
    (index_ok : index < 2 ^ bits) (is_int : IsInt (pos index))
    (addr_ok : addr < 2 ^ (64 - bits)) where
  rx_sum : fi_rx_addr addr (pos index) bits ≡ some (index * 2 ^ (64 - bits) + addr)
  unfolding fi_rx_addr
  rx_sum = ground (
    arith,
    index_fits index bits width index_ok,
    wrap_free index (int_word index is_int),
    wrap_free (index * 2 ^ (64 - bits)),
    bit_or_fields (64 - bits) index addr addr_ok,
  )

  -- For a width from 1 to 64 bits, an `int` index that is not negative and fits it, and an address that
  -- fits the rest, the result is a 64-bit word from which both are read back.
  pub fi_rx_addr-fields :
      (w : ℕ) × (fi_rx_addr addr (pos index) bits ≡ some w)
      × (w < 2 ^ 64)
      × (index_of bits w ≡ index)
      × (base_of bits w ≡ addr)
  fi_rx_addr-fields =
      let parts = row_parts index addr (2 ^ (64 - bits)) addr_ok in
      (
        index * 2 ^ (64 - bits) + addr,
        rx_sum,
        omega (arith, index_fits index bits width index_ok),
        parts.0,
        parts.1,
      )

-- Every 64-bit word is the receive address of its own fields, at each width from 1 to 64 bits at which
-- the index of the word is one of the C type `int`.
pub fields-fi_rx_addr :
    (bits w : ℕ)
    → 0 < bits
    → bits ≤ 64
    → w < 2 ^ 64
    → IsInt (pos (index_of bits w))
    → fi_rx_addr (base_of bits w) (pos (index_of bits w)) bits ≡ some w
fields-fi_rx_addr bits w some_bits width word is_int =
    rx_sum bits (index_of bits w) (base_of bits w) some_bits width
      ((div-lt_iff_lt-mul (unit_pos (64 - bits))).1 (rw (widths bits width) word)) is_int
      (mod-lt w (unit_pos (64 - bits)))
    ∙ ap some (div-add-mod' w (2 ^ (64 - bits)))
