-- ===== src/Scalable/Setup/Sizes.antt =====
-- The sizes of the completion queues that `ft_alloc_ep_res` of src/Scalable.hs asks for, beside those of
-- the C function that its comment quotes.
use native.Mathlib.Nat.{mod-eq_of_lt}
use xlibfabric.Base.{
  ℕ, ◌+◌, ◌^◌, ◌<◌, ◌≡◌, ◌↔◌, ◌⊎◌, Bool, true, false, arith, not, ◌==◌, if◌then◌else◌,
}
use xlibfabric.Scalable.Setup.{tx_queue_size, rx_queue_size}

-- A size given in the options, or else the one of the endpoint's attributes.
abbrev pub size_or : (given attr : ℕ) → ℕ
size_or given attr = if not (given == 0) then given else attr

-- The sizes that the C function sets.
abbrev pub documented_tx_size :
    (shared : Bool) (tx_cq_size rx_cq_size tx_attr_size rx_attr_size : ℕ) → ℕ
documented_tx_size true tx_cq_size rx_cq_size tx_attr_size rx_attr_size =
    size_or tx_cq_size tx_attr_size + size_or rx_cq_size rx_attr_size
documented_tx_size false tx_cq_size rx_cq_size tx_attr_size rx_attr_size =
    size_or tx_cq_size tx_attr_size

-- Where the sum fits a `size_t`, the queue of sends has the size that the C function gives it, shared
-- or not. The queue of receives has the size that the C function gives it exactly if the two sizes
-- of the options are both 0 or both not 0, or the one for receives is that of the attributes.
pub queue_sizes-documented :
    (shared : Bool) (tx_cq_size rx_cq_size tx_attr_size rx_attr_size : ℕ)
    → size_or tx_cq_size tx_attr_size + size_or rx_cq_size rx_attr_size < 2 ^ 64
    → (tx_queue_size shared tx_cq_size rx_cq_size tx_attr_size rx_attr_size
        ≡ documented_tx_size shared tx_cq_size rx_cq_size tx_attr_size rx_attr_size)
      × ((rx_queue_size tx_cq_size rx_cq_size rx_attr_size ≡ size_or rx_cq_size rx_attr_size)
          ↔ (((tx_cq_size ≡ 0) ↔ (rx_cq_size ≡ 0)) ⊎ (rx_cq_size ≡ rx_attr_size)))
unfolding tx_queue_size rx_queue_size
queue_sizes-documented true t r ta ra fits =
    (ground (arith, mod-eq_of_lt fits), (λ e. ground arith, λ e. ground arith))
queue_sizes-documented false t r ta ra fits = (ground arith, (λ e. ground arith, λ e. ground arith))
