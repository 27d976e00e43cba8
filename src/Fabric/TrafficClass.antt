-- ===== src/Fabric/TrafficClass.antt =====
-- include/fabric.h: traffic classes, which are DSCP values or labels.
use xlibfabric.Base.{
  ℕ, ◌+◌, ◌/◌, ◌%◌, ◌^◌, ◌<◌, ◌≡◌, ◌≢◌, ◌↔◌, refl, ap, ◌⊎◌, inl, inr, arith, bit_and, bit_or, ◌==◌,
  if◌then◌else◌,
}
use xlibfabric.Base.Bits.{bit_or_fields, bit_and_bit, bit_or_comm}

-- The enumeration; `FI_TC_DSCP` is a flag bit and `FI_TC_BEST_EFFORT` is `FI_TC_LABEL`.
pub data TrafficClass : Type 0 where
  unspec dscp label best_effort low_latency dedicated_access bulk_data scavenger network_ctrl :
      TrafficClass

abbrev pub fi_tc_dscp : ℕ
fi_tc_dscp = 0x100

abbrev pub fi_tc_label : ℕ
fi_tc_label = 0x200

pub class_code : TrafficClass → ℕ
class_code unspec = 0
class_code dscp = fi_tc_dscp
class_code label = fi_tc_label
class_code best_effort = fi_tc_label
class_code low_latency = fi_tc_label + 1
class_code dedicated_access = fi_tc_label + 2
class_code bulk_data = fi_tc_label + 3
class_code scavenger = fi_tc_label + 4
class_code network_ctrl = fi_tc_label + 5

pub fi_tc_dscp_set : ℕ → ℕ
fi_tc_dscp_set code = bit_or code fi_tc_dscp

pub fi_tc_dscp_get : ℕ → ℕ
fi_tc_dscp_get tclass = if bit_and tclass fi_tc_dscp == 0 then 0 else tclass % 2 ^ 8

set-add : (code : ℕ) → code < 2 ^ 8 → fi_tc_dscp_set code ≡ code + 0x100
unfolding fi_tc_dscp_set
set-add code h = omega (arith, bit_or_comm code 0x100, bit_or_fields 8 1 code h)

get-mod : (t : ℕ) → fi_tc_dscp_get t ≡ (if t / 0x100 % 2 == 0 then 0 else t % 2 ^ 8)
unfolding fi_tc_dscp_get
get-mod t = ground (arith, bit_and_bit 8 t)

get-lt : (t : ℕ) → fi_tc_dscp_get t < 2 ^ 8
get-lt t = ground (arith, get-mod t)

class-apart : (tclass : TrafficClass) → tclass ≢ dscp → class_code tclass / 0x100 % 2 ≡ 0
unfolding class_code
class-apart unspec other = refl
class-apart dscp other = absurd (other refl)
class-apart label other = refl
class-apart best_effort other = refl
class-apart low_latency other = refl
class-apart dedicated_access other = refl
class-apart bulk_data other = refl
class-apart scavenger other = refl
class-apart network_ctrl other = refl

dscp-cases : (tclass : TrafficClass) → (tclass ≡ dscp) ⊎ (tclass ≢ dscp)
dscp-cases unspec = inr (λ e. cc)
dscp-cases dscp = inl refl
dscp-cases label = inr (λ e. cc)
dscp-cases best_effort = inr (λ e. cc)
dscp-cases low_latency = inr (λ e. cc)
dscp-cases dedicated_access = inr (λ e. cc)
dscp-cases bulk_data = inr (λ e. cc)
dscp-cases scavenger = inr (λ e. cc)
dscp-cases network_ctrl = inr (λ e. cc)

code_dscp : class_code dscp ≡ 0x100
unfolding class_code
code_dscp = refl

-- A DSCP byte stored in a traffic class is read back; the class is one of the enumeration exactly if
-- the byte is 0, and then it is FI_TC_DSCP.
pub fi_tc_dscp_get-set :
    (code : ℕ) (tclass : TrafficClass)
    → code < 2 ^ 8
    → (fi_tc_dscp_get (fi_tc_dscp_set code) ≡ code)
      × ((fi_tc_dscp_set code ≡ class_code tclass) ↔ ((tclass ≡ dscp) × (code ≡ 0)))
fi_tc_dscp_get-set code tclass h = (
  ground (arith, set-add code h, get-mod (fi_tc_dscp_set code)),
  (
    λ same. elim (dscp-cases tclass) [
      | inl e ↦ (e, omega (arith, same, set-add code h, code_dscp, ap class_code e))
      | inr other ↦ absurd (omega (arith, same, set-add code h, class-apart tclass other))
    ],
    λ both.
        let (e, zeroed) = both in omega (arith, zeroed, set-add code h, code_dscp, ap class_code e),
  ),
)

code-get : (tclass : TrafficClass) → fi_tc_dscp_get (class_code tclass) ≡ 0
code-get tclass = elim (dscp-cases tclass) [
  | inl e ↦ ground (arith, get-mod (class_code tclass), code_dscp, ap class_code e)
  | inr other ↦ ground (arith, get-mod (class_code tclass), class-apart tclass other)
]

-- Storing what was read gives the class back exactly when it is one of the 256 DSCP classes, and
-- what is read from a class of the enumeration is 0.
pub fi_tc_dscp_set-get :
    (t : ℕ) (tclass : TrafficClass)
    → ((fi_tc_dscp_set (fi_tc_dscp_get t) ≡ t) ↔ (t / 2 ^ 8 ≡ 1))
      × (fi_tc_dscp_get (class_code tclass) ≡ 0)
fi_tc_dscp_set-get t tclass = (
  (
    λ e. ground (arith, get-mod t, get-lt t, set-add (fi_tc_dscp_get t)),
    λ e. ground (arith, get-mod t, get-lt t, set-add (fi_tc_dscp_get t)),
  ),
  code-get tclass,
)
