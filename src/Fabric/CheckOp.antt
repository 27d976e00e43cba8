-- ===== src/Fabric/CheckOp.antt =====
-- include/fabric.h: `FI_CHECK_OP`, which the wrappers of optional operations go through.
use xlibfabric.Base.{ℕ, Bool, false, not, List, ◌==◌, ltb, if◌then◌else◌, ℤ, neg}
use xlibfabric.Machine.{Host, M, Struct, offsetof, load, invoke, pure, ◌>>=◌}

-- `ops && (ops->size > offsetof(opstype, op)) && ops->op`; each test is made only if those before
-- it hold.
unfoldable pub fi_check_op : {G : Type 0} ⦃ops_layout : Struct G⦄ → ℕ → G → M Bool
fi_check_op ops op = if ops == 0 then pure false else do
  size ← load ops 0
  if ltb (offsetof op) size
      then (do fn ← load ops (offsetof op); pure (not (fn == 0)))
      else pure false

-- `FI_CHECK_OP(obj->table, …, op) ? obj->table->op(args) : -FI_ENOSYS`.
unfoldable pub checked_vcall :
    {F G : Type 0} ⦃obj_layout : Struct F⦄ ⦃ops_layout : Struct G⦄ → Host → ℕ → F → G → List ℕ → M ℤ
unfolding fi_check_op
checked_vcall host obj table op args = do
  ops ← load obj (offsetof table)
  present ← fi_check_op ops op
  if present then (do fn ← load ops (offsetof op); invoke host fn args) else pure (neg host.enosys)
