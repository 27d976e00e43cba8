-- ===== src/Scalable/Info/Zero.antt =====
-- The results of `ft_read_addr_opts` and `ft_getinfo` of src/Scalable.hs.
use xlibfabric.Base.{
  ℕ, [], ◌∷◌, ◌≡◌, refl, sym, ◌∙◌, Option, none, some, Bool, true, false, ◌&&◌, ◌||◌, not, ◌==◌,
  is_zero, if◌then◌else◌, ℤ, pos,
}
use xlibfabric.Machine.{
  Host, State, Cells, M, addr_of, invoke, ◌>>◌, offsetof, load, store, pure, ◌>>=◌,
}
use xlibfabric.Machine.Outcomes.{bound, >>=_lem}
use xlibfabric.Fabric.InfoFields.{
  FiInfoField, fi_info_field_layout, FiEpAttrField, fi_ep_attr_field_layout,
}
use xlibfabric.Shared.OptsFields.{FtOptsField, ft_opts_field_layout}
use xlibfabric.Scalable.{Env, Library, peek_struct}
use xlibfabric.Scalable.Info.{
  field, hint_hmem, ft_fiversion, getaddr, ft_read_addr_opts, ft_getinfo,
}

-- A computation that returns this result, where it returns.
abbrev pub Only : {A : Type 0} → A → M A → Type 0
Only a m = (s t : State) (r : _) → m s ≡ some (r, t) → r ≡ a

pure-Only : {A : Type 0} (a : A) → Only a (pure a)
pure-Only a s t r e = cc

if-Only :
    {A : Type 0} {a : A} {m n : M A} (c : Bool) → Only a m → Only a n → Only a (if c then m else n)
if-Only true first second = first
if-Only false first second = second

bind-Only :
    {A B : Type 0} {b : B} (m : M A) (f : A → M B) → ((a : A) → Only b (f a)) → Only b (m >>= f)
bind-Only {A = A} {B = B} {b = b} m f only s t r e = bound-Only (m s) (sym (>>=_lem m f s) ∙ e)
  where
    bound-Only : (x : Option (A × State)) → bound f x ≡ some (r, t) → r ≡ b
    bound-Only none e = cc
    bound-Only (some (a, u)) e = only a u t r e

-- Behind a computation with one result the rest starts from that result.
after-Only :
    {A B : Type 0} {a : A} {b : B} (m : M A) (f : A → M B)
    → Only a m
    → Only b (f a)
    → Only b (m >>= f)
after-Only {A = A} {B = B} {a = a} {b = b} m f first rest s t r e =
    bound-Only (m s) (first s) (sym (>>=_lem m f s) ∙ e)
  where
    bound-Only :
        (x : Option (A × State))
        → ((u : State) (v : A) → x ≡ some (v, u) → v ≡ a)
        → bound f x ≡ some (r, t)
        → r ≡ b
    bound-Only none same e = cc
    bound-Only (some (v, u)) same e = rest u t r (rw (← same u v refl) e)

module _ (host : Host) (lib : Library) (env : Env) where
  -- The address and the port that the two branches store.
  set-Only :
      (o : Cells) (addr : ℕ) (port : FtOptsField)
      → Only
          (pos 0)
          (do store env.node addr; p ← field env.opts port o; store env.service p; pure (pos 0))
  set-Only o addr port = bind-Only (store env.node addr) _ λ _.
      bind-Only (field env.opts port o) _
        λ p. bind-Only (store env.service p) _ λ _. pure-Only (pos 0)

  ft_read_addr_opts-Only : Only (pos 0) (ft_read_addr_opts host lib env)
  unfolding ft_read_addr_opts
  ft_read_addr_opts-Only = bind-Only (peek_struct env.opts) _ λ o.
      bind-Only (field env.opts FtOptsField.dst_addr o) _ λ dst_addr.
        bind-Only (field env.opts FtOptsField.src_addr o) _ λ src_addr.
          bind-Only (field env.opts FtOptsField.oob_port o) _ λ oob_port.
            if-Only (not (dst_addr == 0) && (not (src_addr == 0) || (oob_port == 0)))
              (bind-Only (getaddr host lib env) _ λ ret.
                if-Only (is_zero ret) (set-Only o dst_addr FtOptsField.dst_port)
                  (pure-Only (pos 0)))
              (set-Only o src_addr FtOptsField.src_port)

  -- On whatever provider, and with whatever memory, `ft_getinfo` returns 0 where it returns: it reports
  -- neither a failure of `fi_getinfo` nor one of `getaddr`.
  pub ft_getinfo-Only :
      (s t : State) (ret : ℤ) → ft_getinfo host lib env s ≡ some (ret, t) → ret ≡ pos 0
  unfolding ft_getinfo
  ft_getinfo-Only = bind-Only (store env.flags 0) _ λ _.
      after-Only (ft_read_addr_opts host lib env) _ ft_read_addr_opts-Only (
        bind-Only (load env.hints 0) _ λ h_.
          bind-Only (load h_ (offsetof FiInfoField.ep_attr)) _ λ eap.
            bind-Only (store (addr_of eap FiEpAttrField.type) 3) _
              λ _. bind-Only (hint_hmem host lib env h_) _ λ _. asks-Only)
    where
      asks-Only : Only (pos 0) (do
        h ← load env.hints 0
        f ← load env.flags 0
        n ← load env.node 0
        s ← load env.service 0
        _ ← invoke host lib.fi_getinfo (ft_fiversion ∷ n ∷ s ∷ f ∷ h ∷ env.fi ∷ [])
        pure (pos 0))
      asks-Only = bind-Only (load env.hints 0) _ λ h. bind-Only (load env.flags 0) _ λ f.
          bind-Only (load env.node 0) _ λ n. bind-Only (load env.service 0) _ λ s.
            bind-Only (invoke host lib.fi_getinfo (ft_fiversion ∷ n ∷ s ∷ f ∷ h ∷ env.fi ∷ [])) _
              λ _. pure-Only (pos 0)
