-- ===== src/Scalable/Wait.antt =====
-- src/Scalable.hs: `wait_for_comp`, which polls a completion queue, and the C function that its
-- comment quotes.
pub mod Polls
use xlibfabric.Base.{
  ℕ, zero, suc, Option, none, some, Bool, true, false, ◌&&◌, not, if◌then◌else◌, ◌==◌, ℤ, pos,
  negsuc, neg,
}
use xlibfabric.Machine.{Host, M, alloca, frame, sizeof, pure, ◌>>=◌}
use xlibfabric.Eq.{fi_cq_read}
use xlibfabric.Eq.Attr.{FiCqEntry, fi_cq_entry_layout}
use xlibfabric.Scalable.{is_negative}

-- `if ret /= 1 then return ret else return 0`.
unfoldable pub verdict : ℤ → ℤ
verdict (pos n) = if n == 1 then pos 0 else pos n
verdict (negsuc n) = negsuc n

-- The two tests of the loop: in Haskell the second compares -11 with itself, in C the result of the
-- read with -FI_EAGAIN.
abbrev pub repeats : ℤ → Bool
repeats ret = is_negative ret

abbrev pub documented_repeats : (eagain : ℕ) → ℤ → Bool
documented_repeats eagain (pos n) = false
documented_repeats eagain (negsuc n) = suc n == eagain

-- The loop that reads until `again` is false, with the rounds that it may still make; `none` means
-- that it is still waiting.
unfoldable pub do_while : (fuel : ℕ) → M ℤ → (ℤ → Bool) → M (Option ℤ)
do_while zero action again s = some (none, s)
do_while (suc fuel) action again s = elim (action s) [
  | none ↦ none
  | some (ret, s') ↦ elim (again ret) [
    | true ↦ do_while fuel action again s'
    | false ↦ some (some ret, s')
  ]
]

abbrev pub judged : M (Option ℤ) → M (Option ℤ)
judged m = m >>= λ done. pure (elim done [ none ↦ none | some ret ↦ some (verdict ret) ])

module _ (host : Host) where
  -- The buffer has the type `Ptr ()`, for which `alloca` takes no bytes.
  unfoldable pub wait_for_comp : (fuel cq : ℕ) → M (Option ℤ)
  wait_for_comp fuel cq =
      alloca host 0 λ comp. judged (do_while fuel (fi_cq_read host cq comp 1) repeats)

  -- The C function in the comment.
  unfoldable pub documented_wait_for_comp : (eagain fuel cq : ℕ) → M (Option ℤ)
  documented_wait_for_comp eagain fuel cq =
      frame (sizeof FiCqEntry)
        λ comp. judged (do_while fuel (fi_cq_read host cq comp 1) (documented_repeats eagain))
