-- ===== src/Shared/CloseFid/All.antt =====
-- `FT_CLOSEV_FID` closes an array of objects and clears it.
use xlibfabric.Base.{
  ℕ, zero, suc, ◌+◌, ◌*◌, ◌≤◌, ◌<◌, ◌≡◌, ◌≢◌, refl, ap, ◌∙◌, ◌⊎◌, inl, inr, true, false, some,
  arith, Bool-cases, ◌==◌, if◌then◌else◌, ℤ, is_zero,
}
use native.Mathlib.Decide.{ℕ_discrete}
use xlibfabric.Machine.{
  Host, State, Cells, Struct, load, store, update, addr_of, offsetof, pure, ◌>>=◌,
}
use xlibfabric.Machine.Dispatch.{load-some, store-some, >>=-some}
use xlibfabric.Fabric.{fi_close}
use xlibfabric.Fabric.Layout.{Fid, fid_layout}
use xlibfabric.Shared.CloseFid.{ft_close_fid, closev_loop, ft_closev_fid}

-- What `fi_close` on an open object does, as fi_close(3) has it: it returns, touches that object
-- and no other, and leaves the caller's array alone; if it fails the object can still be read.
-- `IsTried` is what the provider guarantees of an object once a close of it has returned, with
-- success or not.
pub record Closing (host : Host) {F : Type 0} ⦃layout : Struct F⦄ (member : F) (fd cnt : ℕ)
    (IsOpen IsTried : ℕ → Cells → Type 0) : Type 0 where
  pub result : ℕ → Cells → ℤ
  pub after : ℕ → Cells → Cells
  pub returns :
      (p sp : ℕ) (c : Cells)
      → p ≢ 0
      → IsOpen p c
      → fi_close host (addr_of p member) (record { cell = c; sp = sp })
        ≡ some (result p c, record { cell = after p c; sp = sp })
  pub readable :
      (p : ℕ) (c : Cells)
      → p ≢ 0
      → IsOpen p c
      → (is_zero (result p c) ≡ true)
        ⊎ ((k : ℕ) × (after p c (addr_of p member + offsetof Fid.fclass) ≡ some k))
  pub spares :
      (p i : ℕ) (c : Cells) → i < cnt → IsOpen p c → after p c (fd + 8 * i) ≡ c (fd + 8 * i)
  pub others : (p q : ℕ) (c : Cells) → q ≢ p → IsOpen p c → IsOpen q c → IsOpen q (after p c)
  pub closes : (p : ℕ) (c : Cells) → p ≢ 0 → IsOpen p c → IsTried p (after p c)
  pub stays_closed :
      (p q : ℕ) (c : Cells) → p ≢ q → IsOpen p c → IsTried q c → IsTried q (after p c)
  pub stores_closed :
      (p i v : ℕ) (c : Cells) → i < cnt → IsTried p c → IsTried p (update c (fd + 8 * i) v)
  pub stores : (p i v : ℕ) (c : Cells) → i < cnt → IsOpen p c → IsOpen p (update c (fd + 8 * i) v)

-- From index `i` on the array holds the pointers `v`, each null or open and no two open ones the
-- same; before `i` it holds null pointers.
record Pending (fd cnt : ℕ) (IsOpen IsTried : ℕ → Cells → Type 0) (v : ℕ → ℕ) (i : ℕ) (c : Cells)
    : Type 0 where
  cleared : (j : ℕ) → j < i → c (fd + 8 * j) ≡ some 0
  holds : (j : ℕ) → i ≤ j → j < cnt → c (fd + 8 * j) ≡ some (v j)
  are_closed : (j : ℕ) → j < i → v j ≢ 0 → IsTried (v j) c
  are_open : (j : ℕ) → i ≤ j → j < cnt → v j ≢ 0 → IsOpen (v j) c

module _ {host : Host} {F : Type 0} ⦃layout : Struct F⦄ {member : F} {fd cnt : ℕ}
    {IsOpen IsTried : ℕ → Cells → Type 0} (closing : Closing host member fd cnt IsOpen IsTried)
    (fd_mapped : fd ≢ 0) where
  -- The memory once the object at `p` is closed.
  abbrev closed : ℕ → Cells → Cells
  closed p c = if p == 0 then c else closing.after p c

  behind_close :
      (p sp : ℕ) (c : Cells)
      → p ≢ 0
      → IsOpen p c
      → (if is_zero (closing.result p c)
            then pure {A = ℕ} 0
            else (load (addr_of p member) (offsetof Fid.fclass) >>= λ fclass. pure {A = ℕ} 0))
          (record { cell = closing.after p c; sp = sp })
        ≡ some (0, record { cell = closing.after p c; sp = sp })
  behind_close p sp c nonnull is_open = elim (Bool-cases (is_zero (closing.result p c))) [
    | inl success ↦ rw success
    | inr failure ↦ elim (closing.readable p c nonnull is_open) [
      | inl success ↦ absurd (cc)
      | inr (k, e) ↦ rw failure (
          >>=-some (load (addr_of p member) (offsetof Fid.fclass)) _
            (load-some (addr_of p member) (offsetof Fid.fclass) k _ (omega arith) e))
    ]
  ]

  close_returns :
      (p sp : ℕ) (c : Cells)
      → (p ≢ 0 → IsOpen p c)
      → ft_close_fid host member p (record { cell = c; sp = sp })
        ≡ some (0, record { cell = closed p c; sp = sp })
  unfolding ft_close_fid
  close_returns p sp c is_open = elim (ℕ_discrete p 0) [
    | yes null ↦ rw null
    | no nonnull ↦
        let e : (p == 0) ≡ false = ground arith in
        rw e (
          >>=-some (fi_close host (addr_of p member)) _
            (closing.returns p sp c nonnull (is_open nonnull))
          ∙ behind_close p sp c nonnull (is_open nonnull))
  ]

  closed_spares :
      (p i : ℕ) (c : Cells)
      → i < cnt
      → (p ≢ 0 → IsOpen p c)
      → closed p c (fd + 8 * i) ≡ c (fd + 8 * i)
  closed_spares p i c inside is_open = elim (ℕ_discrete p 0) [
    | yes null ↦ rw null
    | no nonnull ↦
        let e : (p == 0) ≡ false = ground arith in
        rw e (closing.spares p i c inside (is_open nonnull))
  ]

  closed_others :
      (p q : ℕ) (c : Cells) → q ≢ p → (p ≢ 0 → IsOpen p c) → IsOpen q c → IsOpen q (closed p c)
  closed_others p q c other is_open q_open = elim (ℕ_discrete p 0) [
    | yes null ↦ rw null q_open
    | no nonnull ↦
        let e : (p == 0) ≡ false = ground arith in
        rw e (closing.others p q c other (is_open nonnull) q_open)
  ]

  -- One round: the entry at `i` is closed and cleared.
  abbrev round : (ℕ → ℕ) → ℕ → Cells → Cells
  round v i c = update (closed (v i) c) (fd + 8 * i) 0

  loop_step :
      (v : ℕ → ℕ) (left i sp : ℕ) (c : Cells)
      → Pending fd cnt IsOpen IsTried v i c
      → i < cnt
      → closev_loop host member fd (suc left) i (record { cell = c; sp = sp })
        ≡ closev_loop host member fd left (i + 1) (record { cell = round v i c; sp = sp })
  unfolding closev_loop
  loop_step v left i sp c pending inside =
      let held = pending.holds i (omega arith) inside in
      let is_open = pending.are_open i (omega arith) inside in
      >>=-some (load fd (8 * i)) _ (load-some fd (8 * i) (v i) _ fd_mapped held)
      ∙ >>=-some (ft_close_fid host member (v i)) _ (close_returns (v i) sp c is_open)
      ∙ >>=-some (store (fd + 8 * i) 0) _ (
          store-some (fd + 8 * i) 0 (v i) _ (omega arith)
            (closed_spares (v i) i c inside is_open ∙ held))

  just_closed :
      (v : ℕ → ℕ) (i j : ℕ) (c : Cells)
      → ((j k : ℕ) → j < k → k < cnt → v k ≢ 0 → v k ≢ v j)
      → i < cnt
      → j < i + 1
      → v j ≢ 0
      → Pending fd cnt IsOpen IsTried v i c
      → IsTried (v j) (closed (v i) c)
  just_closed v i j c distinct inside below nonnull pending = elim (ℕ_discrete j i) [
    | yes same ↦
        let open_i : v i ≢ 0 = λ null. nonnull (ap v same ∙ null) in
        let e : (v i == 0) ≡ false = ground arith in
        rw (same, e)
          (closing.closes (v i) c open_i (pending.are_open i (omega arith) inside open_i))
    | no other ↦
        let before : j < i = omega arith in
        let done = pending.are_closed j before nonnull in
        elim (ℕ_discrete (v i) 0) [
          | yes null ↦ rw null done
          | no open_i ↦
              let e : (v i == 0) ≡ false = ground arith in
              rw e (
                closing.stays_closed (v i) (v j) c (distinct j i before inside open_i)
                  (pending.are_open i (omega arith) inside open_i) done)
        ]
  ]

  round-Pending :
      (v : ℕ → ℕ) (i : ℕ) (c : Cells)
      → ((j k : ℕ) → j < k → k < cnt → v k ≢ 0 → v k ≢ v j)
      → i < cnt
      → Pending fd cnt IsOpen IsTried v i c
      → Pending fd cnt IsOpen IsTried v (i + 1) (round v i c)
  round-Pending v i c distinct inside pending =
      let is_open = pending.are_open i (omega arith) inside in
      record {
        cleared = λ j below.
            ground (arith, pending.cleared j, closed_spares (v i) j c (omega arith) is_open);
        are_closed = λ j below nonnull.
            closing.stores_closed (v j) i 0 (closed (v i) c) inside
              (just_closed v i j c distinct inside below nonnull pending);
        holds = λ j from below.
            ground
              (arith, pending.holds j (omega arith) below, closed_spares (v i) j c below is_open);
        are_open = λ j from below nonnull. closing.stores (v j) i 0 (closed (v i) c) inside (
            closed_others (v i) (v j) c (distinct i j (omega arith) below nonnull) is_open
              (pending.are_open j (omega arith) below nonnull));
      }

  loop_all :
      (v : ℕ → ℕ) (left i sp : ℕ) (c : Cells)
      → ((j k : ℕ) → j < k → k < cnt → v k ≢ 0 → v k ≢ v j)
      → i + left ≡ cnt
      → Pending fd cnt IsOpen IsTried v i c
      → (c' : Cells) × (closev_loop host member fd left i (record { cell = c; sp = sp })
          ≡ some (tt, record { cell = c'; sp = sp }))
        × ((j : ℕ) → j < cnt → (c' (fd + 8 * j) ≡ some 0) × (v j ≢ 0 → IsTried (v j) c'))
  unfolding closev_loop
  loop_all v zero i sp c distinct e pending =
      (c, refl, λ j below. (pending.cleared j (omega arith), pending.are_closed j (omega arith)))
  loop_all v (suc left) i sp c distinct e pending =
      let (c', runs, null) =
        loop_all v left (i + 1) sp (round v i c) distinct (omega arith)
          (round-Pending v i c distinct (omega arith) pending) in
      (c', loop_step v left i sp c pending (omega arith) ∙ runs, null)

-- On an array of `cnt` pointers, each null or an open object and no object twice, and with a
-- provider that closes as documented, whatever the single calls return: `FT_CLOSEV_FID` ends
-- without undefined behaviour, for every object a close has returned, and every entry of the array
-- is null.
pub ft_closev_fid-clears :
    {host : Host} {F : Type 0} ⦃layout : Struct F⦄ {member : F}
    {IsOpen IsTried : ℕ → Cells → Type 0} {fd cnt : ℕ} (v : ℕ → ℕ) (s : State)
    → Closing host member fd cnt IsOpen IsTried
    → fd ≢ 0
    → ((j : ℕ) → j < cnt → s.cell (fd + 8 * j) ≡ some (v j))
    → ((j : ℕ) → j < cnt → v j ≢ 0 → IsOpen (v j) s.cell)
    → ((j k : ℕ) → j < k → k < cnt → v k ≢ 0 → v k ≢ v j)
    → (c : Cells) × (ft_closev_fid host member fd cnt s ≡ some (tt, record s { cell = c }))
      × ((j : ℕ) → j < cnt → (c (fd + 8 * j) ≡ some 0) × (v j ≢ 0 → IsTried (v j) c))
unfolding ft_closev_fid
ft_closev_fid-clears {host} {fd} {cnt} v s closing mapped holds are_open distinct =
    let e : (fd == 0) ≡ false = ground arith in
    let start : Pending fd cnt _ _ v 0 s.cell = record {
      cleared = λ j below. absurd (omega arith);
      are_closed = λ j below. absurd (omega arith);
      holds = λ j from below. holds j below;
      are_open = λ j from below nonnull. are_open j below nonnull;
    } in
    rw e (loop_all closing mapped v cnt 0 s.sp s.cell distinct (omega arith) start)
