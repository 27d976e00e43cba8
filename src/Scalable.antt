-- ===== src/Scalable.antt =====
-- src/Scalable.hs: the port of the scalable endpoint test to Haskell. A `Ptr` is an address, an IO
-- action a computation of the C machine, and what it prints is left out.
pub mod Wait
pub mod Close
pub mod Attr
pub mod Info
pub mod Setup
pub mod Session
pub mod Program
use xlibfabric.Base.{
  ℕ, zero, suc, ◌+◌, ◌-◌, ◌≤◌, ◌<◌, Option, none, some, Bool, true, false, ◌&&◌, List, ◌==◌, ltb,
  leb, if◌then◌else◌, ℤ, pos, negsuc, is_zero,
}
use xlibfabric.Machine.{Host, State, Cells, M, load, store, pure, update, ◌>>=◌, ◌>>◌}

-- The fields of `Env` that the code reads: addresses, but for the two numbers at the head.
pub record Env : Type 0 where
  pub ctx_cnt : ℕ
  pub rx_ctx_bits : ℕ
  pub sep : ℕ
  pub tx_ep : ℕ
  pub rx_ep : ℕ
  pub rxcq : ℕ
  pub txcq : ℕ
  pub txcq_array : ℕ
  pub rxcq_array : ℕ
  pub remote_rx_addr : ℕ
  pub cq_attr : ℕ
  pub av_attr : ℕ
  pub av : ℕ
  pub hints : ℕ
  pub fi : ℕ
  pub domain : ℕ
  pub buf : ℕ
  pub tx_buf : ℕ
  pub rx_buf : ℕ
  pub mr_desc : ℕ
  pub remote_fi_addr : ℕ
  pub rx_size : ℕ
  pub tx_size : ℕ
  pub rx_mr_size : ℕ
  pub tx_mr_size : ℕ
  pub buf_size : ℕ
  pub fab : ℕ
  pub eq_attr : ℕ
  pub eq : ℕ
  pub opts : ℕ
  pub node : ℕ
  pub service : ℕ
  pub flags : ℕ
  pub cntr_attr : ℕ
  pub rxcntr : ℕ
  pub txcntr : ℕ
  pub waitset : ℕ

-- The functions that libfabric exports, by their addresses, and `moveBytes` of the Haskell library.
pub record Library : Type 0 where
  pub fi_getinfo : ℕ
  pub fi_freeinfo : ℕ
  pub fi_fabric : ℕ
  pub move_bytes : (dest source count : ℕ) → Cells → Option Cells

-- `a |-> b`: the second action is run if the first returns 0.
infixl 6 ◌|->◌
abbrev pub ◌|->◌ : M ℤ → M ℤ → M ℤ
a |-> b = a >>= λ ret. if is_zero ret then b else pure ret

-- `mapM_ f [i .. i + left - 1]`.
unfoldable pub map_m : (ℕ → M ℤ) → (left i : ℕ) → M (Unit {0})
map_m f zero i = pure tt
map_m f (suc left) i = f i >>= λ _. map_m f left (i + 1)

-- `peek` of a whole struct, and `poke` of one of `bytes` bytes.
abbrev pub peek_struct : ℕ → M Cells
peek_struct p s = if p == 0 then none else some (s.cell, s)

abbrev pub poke_struct : (p bytes : ℕ) → Cells → M (Unit {0})
poke_struct p bytes values s =
    if p == 0
    then none
    else some
        (tt, record s { cell = λ q. if leb p q && ltb q (p + bytes) then values q else s.cell q })

abbrev pub is_negative : ℤ → Bool
is_negative (pos n) = false
is_negative (negsuc n) = true
