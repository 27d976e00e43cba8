-- ===== src/Abi/Order.antt =====
-- The members of a struct do not overlap.
use native.Mathlib.Nat.{mul-mod_left, div-add-mod', mod-lt, one-le-pow}
use xlibfabric.Base.{ℕ, ◌+◌, ◌-◌, ◌/◌, ◌%◌, ◌^◌, ◌≤◌, ◌≡◌, List, [], ◌∷◌, arith}
use xlibfabric.Abi.{Kind, align_up, offsets, end_of, struct_of}

-- The members at these offsets come one behind the other, each aligned, from `start` up to `total`.
abbrev pub InOrder : (start : ℕ) → List ℕ → List Kind → (total : ℕ) → Type 0
InOrder start [] [] total = start ≤ total
InOrder start (o ∷ os) (k ∷ ks) total =
    (start ≤ o) × (o % 2 ^ k.log_align ≡ 0) × InOrder (o + k.size) os ks total
InOrder start [] (k ∷ ks) total = ⊥
InOrder start (o ∷ os) [] total = ⊥

align_up-above : (log n : ℕ) → n ≤ align_up log n
unfolding align_up
align_up-above log n =
    let positive = one-le-pow log 2 (omega arith) in
    omega (arith, div-add-mod' (n + (2 ^ log - 1)) (2 ^ log), mod-lt (n + (2 ^ log - 1)) positive)

align_up-aligned : (log n : ℕ) → align_up log n % 2 ^ log ≡ 0
unfolding align_up
align_up-aligned log n = mul-mod_left ((n + (2 ^ log - 1)) / 2 ^ log) (2 ^ log)

pub offsets-InOrder :
    (start : ℕ) (ks : List Kind) → InOrder start (offsets start ks) ks (end_of start ks)
unfolding offsets end_of
offsets-InOrder start [] = omega arith
offsets-InOrder start (k ∷ ks) = (
  align_up-above k.log_align start,
  align_up-aligned k.log_align start,
  offsets-InOrder (align_up k.log_align start + k.size) ks,
)

end_of-above :
    (start : ℕ) (ks : List Kind) (os : List ℕ) (n total : ℕ)
    → InOrder start os ks n
    → n ≤ total
    → InOrder start os ks total
end_of-above start [] [] n total order low = omega arith
end_of-above start [] (o ∷ os) n total order low = order
end_of-above start (k ∷ ks) [] n total order low = order
end_of-above start (k ∷ ks) (o ∷ os) n total (above, aligned, rest) low =
    (above, aligned, end_of-above (o + k.size) ks os n total rest low)

-- The members of a struct lie within it.
pub struct-InOrder : (ks : List Kind) → InOrder 0 (offsets 0 ks) ks (struct_of ks).size
struct-InOrder ks =
    end_of-above 0 ks (offsets 0 ks) (end_of 0 ks) (struct_of ks).size (offsets-InOrder 0 ks)
      (align_up-above (struct_of ks).log_align (end_of 0 ks))
