-- ===== src/Scalable/Attr/Insert.antt =====
-- What `ft_av_insert` of src/Scalable.hs makes of the provider's result.
use xlibfabric.Base.{
  ℕ, ◌^◌, ◌<◌, ◌≡◌, refl, true, false, ◌↔◌, ◌⊎◌, inl, inr, arith, some, ℤ, pos, negsuc,
}
use xlibfabric.Machine.{Host, State}
use xlibfabric.Machine.Dispatch.{>>=-some}
use xlibfabric.Domain.{fi_av_insert}
use xlibfabric.Scalable.{is_negative}
use xlibfabric.Scalable.Attr.{insert_result, ft_av_insert, c_int}

c_int_lem : (n : ℕ) → n < 2 ^ 31 → c_int n ≡ pos n
c_int_lem n fits = ground arith

-- If `fi_av_insert` returns, then so does `ft_av_insert`, in the same state: with 0 exactly if all
-- `count` addresses were inserted, with the provider's error if there was one, and with -1 otherwise.
-- The count must fit an `int`.
pub ft_av_insert-result :
    (host : Host) (av addr count fi_addr flags context : ℕ) (s t : State) (ret : ℤ)
    → count < 2 ^ 31
    → fi_av_insert host av addr count fi_addr flags context s ≡ some (ret, t)
    → (r : ℤ) × (ft_av_insert host av addr count fi_addr flags context s ≡ some (r, t))
      × ((r ≡ pos 0) ↔ (ret ≡ pos count))
      × ((r ≡ pos 0)
          ⊎ (((is_negative ret ≡ true) × (r ≡ ret)) ⊎ ((is_negative ret ≡ false) × (r ≡ negsuc 0))))
unfolding ft_av_insert insert_result
ft_av_insert-result host av addr count fi_addr flags context s t (negsuc n) fits e = (
  negsuc n,
  >>=-some (fi_av_insert host av addr count fi_addr flags context) _ e,
  (λ z. cc, λ z. cc),
  inr (inl (refl, refl)),
)
ft_av_insert-result host av addr count fi_addr flags context s t (pos n) fits e = (
  insert_result count (pos n),
  >>=-some (fi_av_insert host av addr count fi_addr flags context) _ e,
  (λ z. ground (arith, c_int_lem count fits), λ z. ground (arith, c_int_lem count fits)),
  ground (arith, c_int_lem count fits),
)
