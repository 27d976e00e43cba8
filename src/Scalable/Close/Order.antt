-- ===== src/Scalable/Close/Order.antt =====
-- The objects that `free_res` of src/Scalable.hs closes.
use native.Mathlib.Nat.{add-zero}
use xlibfabric.Base.{ℕ, zero, suc, ◌+◌, ◌*◌, ◌<◌, ◌≡◌, refl, ap, ◌∙◌, arith, some, ℤ}
use xlibfabric.Machine.{Host, State, M, sizeof, addr_of}
use xlibfabric.Machine.Dispatch.{>>=-some}
use xlibfabric.Fabric.{fi_close}
use xlibfabric.Endpoint.Layout.{FidEp, fid_ep_layout}
use xlibfabric.Eq.Layout.{FidCq, fid_cq_layout}
use xlibfabric.Scalable.{map_m}
use xlibfabric.Scalable.Close.{close_fid, closev_fid_ep, closev_fid_cq}

map_m-all :
    (f : ℕ → M ℤ) (left i : ℕ) (states : ℕ → State) (results : ℕ → ℤ)
    → ((k : ℕ) → k < i + left → f k (states k) ≡ some (results k, states (k + 1)))
    → map_m f left i (states i) ≡ some (tt, states (i + left))
unfolding map_m
map_m-all f zero i states results every = rw (add-zero i) refl
map_m-all f (suc left) i states results every =
    let next : (i + 1) + left ≡ i + suc left = omega arith in
    >>=-some (f i) _ (every i (omega arith))
    ∙ map_m-all f left (i + 1) states results (λ k low. every k (omega arith))
    ∙ ap (λ m. some (tt, states m)) next

map_m-from_zero :
    (f : ℕ → M ℤ) (n : ℕ) (states : ℕ → State) (results : ℕ → ℤ)
    → ((k : ℕ) → k < n → f k (states k) ≡ some (results k, states (k + 1)))
    → map_m f n 0 (states 0) ≡ some (tt, states n)
map_m-from_zero f n states results every =
    let same : 0 + n ≡ n = omega arith in
    map_m-all f n 0 states results (λ k low. every k (omega arith))
    ∙ ap (λ m. some (tt, states m)) same

-- If each of `n` closings of an endpoint returns, with whatever result, then `closev_fid_ep` makes them
-- all, in the order of the structs behind `p`, and each in the state that the one before it left; and
-- `closev_fid_cq` does the same for completion queues. A failure of one does not stop the others.
pub closev_fid-all :
    (host : Host) (p n : ℕ) (eps cqs : ℕ → State) (ep_rets cq_rets : ℕ → ℤ)
    → ((i : ℕ)
        → i < n
        → fi_close host (addr_of (p + i * sizeof FidEp) FidEp.fid) (eps i)
          ≡ some (ep_rets i, eps (i + 1)))
    → ((i : ℕ)
        → i < n
        → fi_close host (addr_of (p + i * sizeof FidCq) FidCq.fid) (cqs i)
          ≡ some (cq_rets i, cqs (i + 1)))
    → (closev_fid_ep host p n (eps 0) ≡ some (tt, eps n))
      × (closev_fid_cq host p n (cqs 0) ≡ some (tt, cqs n))
unfolding closev_fid_ep closev_fid_cq close_fid
closev_fid-all host p n eps cqs ep_rets cq_rets ep_closes cq_closes = (
  map_m-from_zero (λ i. close_fid host (addr_of (p + i * sizeof FidEp) FidEp.fid)) n eps ep_rets
      ep_closes,
  map_m-from_zero (λ i. close_fid host (addr_of (p + i * sizeof FidCq) FidCq.fid)) n cqs cq_rets
      cq_closes,
)
