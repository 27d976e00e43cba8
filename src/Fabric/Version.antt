-- ===== src/Fabric/Version.antt =====
-- include/fabric.h: the version macros. A version is the unsigned number that they pack.
use xlibfabric.Base.{
  ℕ, ◌*◌, ◌/◌, ◌%◌, ◌^◌, ◌≤◌, ◌<◌, ◌≡◌, ◌↔◌, Bool, true, ◌&&◌, ◌||◌, arith, bit_and, bit_or, ltb,
  ◌==◌,
}
use xlibfabric.Base.Bits.{bit_or_fields, bit_and_mask}

pub fi_version : ℕ → ℕ → ℕ
fi_version major minor = bit_or (major * 2 ^ 16) minor

pub fi_major : ℕ → ℕ
fi_major version = version / 2 ^ 16

pub fi_minor : ℕ → ℕ
fi_minor version = bit_and version 0xFFFF

pub fi_version_ge : ℕ → ℕ → Bool
fi_version_ge v1 v2 =
    ltb (fi_major v2) (fi_major v1)
    || ((fi_major v1 == fi_major v2) && (fi_minor v1 == fi_minor v2))
    || ((fi_major v1 == fi_major v2) && ltb (fi_minor v2) (fi_minor v1))

pub fi_version_lt : ℕ → ℕ → Bool
fi_version_lt v1 v2 =
    ltb (fi_major v1) (fi_major v2)
    || ((fi_major v1 == fi_major v2) && ltb (fi_minor v1) (fi_minor v2))

fi_minor-mod : (v : ℕ) → fi_minor v ≡ v % 2 ^ 16
unfolding fi_minor
fi_minor-mod v = bit_and_mask 16 v

-- Packing a major number and a minor number below 2^16 and taking the two apart gives them back.
pub fields-fi_version :
    (major minor : ℕ)
    → minor < 2 ^ 16
    → (fi_major (fi_version major minor) ≡ major) × (fi_minor (fi_version major minor) ≡ minor)
unfolding fi_version fi_major
fields-fi_version major minor fits =
    omega (arith, bit_or_fields 16 major minor fits, fi_minor-mod (fi_version major minor))

-- Every version is packed from its own two numbers.
pub fi_version-fields : (v : ℕ) → fi_version (fi_major v) (fi_minor v) ≡ v
unfolding fi_version fi_major
fi_version-fields v = omega (
  arith,
  fi_minor-mod v,
  bit_or_fields 16 (v / 2 ^ 16) (fi_minor v) (omega (arith, fi_minor-mod v)),
)

-- `FI_VERSION_GE` and `FI_VERSION_LT` are the orders of the packed numbers: the first holds
-- exactly when the first version is at least the second, the other exactly when it is below.
pub fi_version-order :
    (v1 v2 : ℕ)
    → ((fi_version_ge v1 v2 ≡ true) ↔ (v2 ≤ v1)) × ((fi_version_lt v1 v2 ≡ true) ↔ (v1 < v2))
unfolding fi_version_ge fi_version_lt fi_major
fi_version-order v1 v2 = ground (arith, fi_minor-mod v1, fi_minor-mod v2)
