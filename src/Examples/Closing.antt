-- ===== src/Examples/Closing.antt =====
-- A run of `FT_CLOSEV_FID` on two open endpoints with a null pointer between them.
use xlibfabric.Base.{
  arith, ◌≡◌, ◌≢◌, ◌<◌, ◌⊎◌, inl, ◌+◌, ◌*◌, refl, ◌∙◌, [], ◌∷◌, some, none, pos, ◌==◌,
  if◌then◌else◌, ℕ,
}
use native.Mathlib.Nat.{add-zero}
use xlibfabric.Machine.{Host, State, Cells, Method, update, load, vcall}
use xlibfabric.Machine.Dispatch.{>>=-some, load-some, invoke-perform}
use xlibfabric.Fabric.Layout.{fid_layout, fi_ops_layout}
use xlibfabric.Fabric.{fi_close}
use xlibfabric.Endpoint.Layout.{FidEp, fid_ep_layout}
use xlibfabric.Shared.CloseFid.{ft_closev_fid}
use xlibfabric.Shared.CloseFid.All.{Closing, ft_closev_fid-clears}

-- Closing an object clears its class.
abbrev close_method : Method
close_method (p ∷ []) c = some (pos 0, update c p 0)
close_method _ c = none

abbrev closing_host : Host
closing_host = record {
  call = λ fn. close_method;
  fi_dupinfo = 7;
  enosys = 38;
  allocate = λ bytes c. (50000, c);
}

-- The array at 40 holds the endpoints 200 and 400 around a null pointer.
abbrev entry : ℕ → ℕ
entry i = if i == 0 then 200 else if i == 2 then 400 else 0

abbrev arrays : State
arrays = record {
  cell =
      λ q. some (if q == 40 then 200 else if q == 48 then 0 else if q == 56 then 400 else q + 1000);
  sp = 100000;
}

abbrev IsOpen : ℕ → Cells → Type 0
IsOpen p c =
    ((p ≡ 200) ⊎ (p ≡ 400)) × (c (p + 16) ≡ some (p + 1016)) × (c (p + 1016 + 8) ≡ some (p + 2024))

abbrev IsTried : ℕ → Cells → Type 0
IsTried p c = (c p ≡ some 0) × ((p ≡ 200) ⊎ (p ≡ 400))

close_returns :
    (p sp : ℕ) (c : Cells)
    → p ≢ 0
    → IsOpen p c
    → fi_close closing_host p (record { cell = c; sp = sp })
      ≡ some (pos 0, record { cell = update c p 0; sp = sp })
unfolding fi_close vcall
close_returns p sp c nonnull (_, table, slot) =
    >>=-some (load p 16) _ (load-some p 16 (p + 1016) _ nonnull table)
    ∙ >>=-some (load (p + 1016) 8) _ (load-some (p + 1016) 8 (p + 2024) _ (omega arith) slot)
    ∙ invoke-perform closing_host (p + 2024) (some close_method) (p ∷ []) _ (omega arith, refl)

closing : Closing closing_host FidEp.fid 40 3 IsOpen IsTried
closing = record {
  result = λ p c. pos 0;
  after = λ p c. update c p 0;
  returns = λ p sp c nonnull is_open. rw (add-zero p) (close_returns p sp c nonnull is_open);
  readable = λ p c nonnull is_open. inl refl;
  spares = λ p i c inside is_open. ground arith;
  others = λ p q c other p_open q_open. ground arith;
  closes = λ p c nonnull is_open. ground arith;
  stays_closed = λ p q c other is_open is_closed. ground arith;
  stores_closed = λ p i v c inside is_closed. ground arith;
  stores = λ p i v c inside is_open. ground arith;
}

held : (j : ℕ) → j < 3 → arrays.cell (40 + 8 * j) ≡ some (entry j)
held j below = ground arith

all_open : (j : ℕ) → j < 3 → entry j ≢ 0 → IsOpen (entry j) arrays.cell
all_open j below nonnull = ground arith

all_distinct : (j k : ℕ) → j < k → k < 3 → entry k ≢ 0 → entry k ≢ entry j
all_distinct j k order below nonnull same = ground arith

ft_closev_fid-clears_example :
    (c : Cells) × (ft_closev_fid closing_host FidEp.fid 40 3 arrays
      ≡ some (tt, record arrays { cell = c }))
    × ((j : ℕ) → j < 3 → (c (40 + 8 * j) ≡ some 0) × (entry j ≢ 0 → IsTried (entry j) c))
ft_closev_fid-clears_example =
    ft_closev_fid-clears entry arrays closing (omega arith) held all_open all_distinct
