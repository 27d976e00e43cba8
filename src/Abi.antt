-- ===== src/Abi.antt =====
-- How a C compiler lays a struct out, for the declarations in include/.
pub mod Order
pub mod Attributes
pub mod Tables
use xlibfabric.Base.{ℕ, ◌+◌, ◌-◌, ◌*◌, ◌/◌, ◌%◌, ◌^◌, ◌≤◌, ◌≡◌, List, [], ◌∷◌, map, max}

-- The data models: pointers and `size_t` have 4 or 8 bytes. A `uint64_t` is aligned to 8 bytes in both.
pub data Model : Type 0 where
  ilp32 lp64 : Model

-- The size of a type, and the binary logarithm of its alignment.
pub record Kind : Type 0 where
  pub size : ℕ
  pub log_align : ℕ

abbrev pub byte : Kind
byte = record { size = 1; log_align = 0 }

abbrev pub int : Kind
int = record { size = 4; log_align = 2 }

abbrev pub u64 : Kind
u64 = record { size = 8; log_align = 3 }

abbrev pub word : Model → Kind
word ilp32 = record { size = 4; log_align = 2 }
word lp64 = record { size = 8; log_align = 3 }

abbrev pub array : ℕ → Kind → Kind
array n k = record { size = n * k.size; log_align = k.log_align }

-- The first multiple of 2 ^ log that is not below `n`.
unfoldable pub align_up : (log n : ℕ) → ℕ
align_up log n = (n + (2 ^ log - 1)) / 2 ^ log * 2 ^ log

-- The offsets of members that follow a part of `start` bytes, and where the last of them ends.
unfoldable pub offsets : (start : ℕ) → List Kind → List ℕ
offsets start [] = []
offsets start (k ∷ ks) =
    align_up k.log_align start ∷ offsets (align_up k.log_align start + k.size) ks

unfoldable pub end_of : (start : ℕ) → List Kind → ℕ
end_of start [] = start
end_of start (k ∷ ks) = end_of (align_up k.log_align start + k.size) ks

abbrev pub greatest : (Kind → ℕ) → List Kind → ℕ
greatest f [] = 0
greatest f (k ∷ ks) = max (f k) (greatest f ks)

-- A struct and a union of members.
abbrev pub struct_of : List Kind → Kind
struct_of ks = record {
  size = align_up (greatest (λ k. k.log_align) ks) (end_of 0 ks);
  log_align = greatest (λ k. k.log_align) ks;
}

abbrev pub union_of : List Kind → Kind
union_of ks = record {
  size = align_up (greatest (λ k. k.log_align) ks) (greatest (λ k. k.size) ks);
  log_align = greatest (λ k. k.log_align) ks;
}

-- The members of a struct by their names, in order.
abbrev pub Members : Type 0 → Type 0
Members F = List (F × Kind)

abbrev pub kinds : {F : Type 0} → Members F → List Kind
kinds ms = map (λ m. m.1) ms
