-- ===== src/Scalable/Setup/Stale.antt =====
-- The fabric that `ft_open_fabric_res` of src/Scalable.hs opens, and the one that it uses.
use xlibfabric.Base.{ℕ, ◌+◌, ◌≡◌, ◌≢◌, refl, ◌∙◌, none, some, [], ◌∷◌, pos}
use xlibfabric.Machine.{Host, State, offsetof, load, invoke, vcall}
use xlibfabric.Machine.Dispatch.{>>=-some, load-some}
use xlibfabric.Machine.Outcomes.{bind-stuck}
use xlibfabric.Fabric.InfoFields.{FiInfoField, fi_info_field_layout}
use xlibfabric.Eq.{fi_eq_open}
use xlibfabric.Scalable.{Env, Library, ◌|->◌}
use xlibfabric.Scalable.Setup.{ft_open_fabric_res}

eq_open-null :
    (host : Host) (attr eq context : ℕ) (s : State) → fi_eq_open host 0 attr eq context s ≡ none
unfolding fi_eq_open vcall load
eq_open-null host attr eq context s = refl

module _ (host : Host) (lib : Library) (env : Env) (s t : State) (info attr : ℕ) where
  -- If no fabric was open before, `ft_open_fabric_res` is undefined although `fi_fabric` returns 0 and
  -- whatever fabric it stores: the event queue is opened on the null pointer that was there before. The
  -- provider's description must be mapped.
  pub ft_open_fabric_res-stale :
      env.fi ≢ 0
      → s.cell (env.fi + 0) ≡ some info
      → info ≢ 0
      → s.cell (info + offsetof FiInfoField.fabric_attr) ≡ some attr
      → env.fab ≢ 0
      → s.cell (env.fab + 0) ≡ some 0
      → invoke host lib.fi_fabric (attr ∷ env.fab ∷ 0 ∷ []) s ≡ some (pos 0, t)
      → ft_open_fabric_res host lib env s ≡ none
  unfolding ft_open_fabric_res
  ft_open_fabric_res-stale fi_mapped has_info info_mapped has_attr fab_mapped no_fabric opened =
      let open_fabric = invoke host lib.fi_fabric (attr ∷ env.fab ∷ 0 ∷ []) in
      let open_queue = fi_eq_open host 0 env.eq_attr env.eq 0 in
      >>=-some (load env.fi 0) _ (load-some env.fi 0 info s fi_mapped has_info)
      ∙ >>=-some (load info (offsetof FiInfoField.fabric_attr)) _
          (load-some info (offsetof FiInfoField.fabric_attr) attr s info_mapped has_attr)
      ∙ >>=-some (load env.fab 0) _ (load-some env.fab 0 0 s fab_mapped no_fabric)
      ∙ bind-stuck (open_fabric |-> open_queue) _ s
          (>>=-some open_fabric _ opened ∙ eq_open-null host env.eq_attr env.eq 0 t)
