-- ===== src/Fabric/Optional.antt =====
-- Calls of optional operations, through `FI_CHECK_OP` of include/fabric.h.
use xlibfabric.Base.{
  ℕ, ◌+◌, ◌≤◌, ◌<◌, ◌≡◌, ◌≢◌, ◌∙◌, false, not, Option, none, some, List, arith, ◌==◌, ℤ, neg,
  if◌then◌else◌,
}
use xlibfabric.Machine.{Host, State, Method, M, Struct, offsetof, load, invoke, pure, ◌>>=◌}
use xlibfabric.Machine.Dispatch.{Binds, perform, load-some, >>=-some, invoke-perform}
use native.Mathlib.Decide.{ℕ_discrete, dec_lt}
use xlibfabric.Fabric.CheckOp.{fi_check_op, checked_vcall}

-- A missing operation answers -FI_ENOSYS.
abbrev pub perform_or : ℕ → Option Method → List ℕ → M ℤ
perform_or enosys none args s = some (neg enosys, s)
perform_or enosys (some m) args s = perform (some m) args s

-- In the memory of `s`, the field `table` of the struct at `obj` is null or points at a table of
-- `size` bytes, mapped as far as `size` says. A method whose entry starts behind the end is
-- missing, and so are all of them if there is no table.
pub record Offers {F G : Type 0} ⦃obj_layout : Struct F⦄ ⦃ops_layout : Struct G⦄ (host : Host)
    (s : State) (obj : ℕ) (table : F) (methods : G → Option Method) : Type 0 where
  pub ops : ℕ
  pub size : ℕ
  pub entry : G → ℕ
  pub obj_mapped : obj ≢ 0
  pub points : s.cell (obj + offsetof table) ≡ some ops
  pub absent : ops ≡ 0 → (k : G) → methods k ≡ none
  pub sized : ops ≢ 0 → s.cell (ops + 0) ≡ some size
  pub cut : (k : G) → size ≤ offsetof k → methods k ≡ none
  pub holds : ops ≢ 0 → (k : G) → offsetof k < size → s.cell (ops + offsetof k) ≡ some (entry k)
  pub binds : ops ≢ 0 → (k : G) → offsetof k < size → Binds host (entry k) (methods k)

non_null : (fn : ℕ) → fn ≢ 0 → (fn == 0) ≡ false
non_null fn h = ground arith

module _ {G : Type 0} ⦃ops_layout : Struct G⦄ where
  -- What the test answers, from the words that it reads.
  check_null : (ops : ℕ) (k : G) (s : State) → ops ≡ 0 → fi_check_op ops k s ≡ some (false, s)
  unfolding fi_check_op
  check_null ops k s e = rw e

  check_cut :
      (ops size : ℕ) (k : G) (s : State)
      → ops ≢ 0
      → s.cell (ops + 0) ≡ some size
      → size ≤ offsetof k
      → fi_check_op ops k s ≡ some (false, s)
  unfolding fi_check_op load
  check_cut ops size k s mapped sized cut = ground arith

  check_entry :
      (ops size fn : ℕ) (k : G) (s : State)
      → ops ≢ 0
      → s.cell (ops + 0) ≡ some size
      → offsetof k < size
      → s.cell (ops + offsetof k) ≡ some fn
      → fi_check_op ops k s ≡ some (not (fn == 0), s)
  unfolding fi_check_op load
  check_entry ops size fn k s mapped sized inside held = ground arith

  -- The branches behind the test agree with the entry that was read.
  pub choose-perform :
      (host : Host) (ops fn : ℕ) (k : G) (m : Option Method) (args : List ℕ) (s : State)
      → ops ≢ 0
      → s.cell (ops + offsetof k) ≡ some fn
      → Binds host fn m
      → (if not (fn == 0)
            then (load ops (offsetof k) >>= λ f. invoke host f args)
            else pure (neg host.enosys))
          s
        ≡ perform_or host.enosys m args s
  choose-perform host ops fn k none args s mapped held b = rw b
  choose-perform host ops fn k (some m) args s mapped held b = rw (non_null fn b.0) (
      >>=-some (load ops (offsetof k)) _ (load-some ops (offsetof k) fn s mapped held)
      ∙ invoke-perform host fn (some m) args s b)

module _ {F G : Type 0} ⦃obj_layout : Struct F⦄ ⦃ops_layout : Struct G⦄ {host : Host} {s : State}
    {obj : ℕ} {table : F} {methods : G → Option Method} (r : Offers host s obj table methods) where
  behind_null :
      (k : G) (args : List ℕ)
      → fi_check_op r.ops k s ≡ some (false, s)
      → methods k ≡ none
      → checked_vcall host obj table k args s ≡ perform_or host.enosys (methods k) args s
  unfolding checked_vcall
  behind_null k args fails missing = rw missing (
      >>=-some (load obj (offsetof table)) _
        (load-some obj (offsetof table) r.ops s r.obj_mapped r.points)
      ∙ >>=-some (fi_check_op r.ops k) _ fails)

  -- A guarded call is the method, or -FI_ENOSYS if it is missing; it never faults by itself.
  pub checked_vcall-perform :
      (k : G) (args : List ℕ)
      → checked_vcall host obj table k args s ≡ perform_or host.enosys (methods k) args s
  unfolding checked_vcall
  checked_vcall-perform k args = elim (ℕ_discrete r.ops 0) [
    | yes null ↦ behind_null k args (check_null r.ops k s null) (r.absent null k)
    | no mapped ↦ elim (dec_lt (offsetof k) r.size) [
      | yes inside ↦
          >>=-some (load obj (offsetof table)) _
            (load-some obj (offsetof table) r.ops s r.obj_mapped r.points)
          ∙ >>=-some (fi_check_op r.ops k) _ (
              check_entry r.ops r.size (r.entry k) k s mapped (r.sized mapped) inside
                (r.holds mapped k inside))
          ∙ choose-perform host r.ops (r.entry k) k (methods k) args s mapped
              (r.holds mapped k inside) (r.binds mapped k inside)
      | no outside ↦
          let cut : r.size ≤ offsetof k = omega arith in
          behind_null k args (check_cut r.ops r.size k s mapped (r.sized mapped) cut) (r.cut k cut)
    ]
  ]
