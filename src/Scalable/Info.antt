-- ===== src/Scalable/Info.antt =====
-- src/Scalable.hs: the addresses of the options, and the provider's description of the endpoint.
pub mod Zero
use xlibfabric.Base.{
  ℕ, ◌^◌, bit_and, bit_or, none, some, ◌&&◌, ◌||◌, not, [], ◌∷◌, ◌==◌, is_zero, if◌then◌else◌, ℤ,
  pos,
}
use xlibfabric.Machine.{
  Host, Cells, M, Struct, offsetof, sizeof, addr_of, load, store, update, alloca, invoke, pure,
  ◌>>=◌, ◌>>◌,
}
use xlibfabric.Fabric.InfoFields.{
  FiInfoField, fi_info_field_layout, FiEpAttrField, fi_ep_attr_field_layout, FiDomainAttrField,
  fi_domain_attr_field_layout,
}
use xlibfabric.Shared.OptsFields.{FtOptsField, ft_opts_field_layout}
use xlibfabric.Scalable.{Env, Library, peek_struct, poke_struct}

abbrev pub fi_source : ℕ
fi_source = 2 ^ 57

abbrev pub ft_fiversion : ℕ
ft_fiversion = bit_or (2 ^ 16) 9

abbrev pub ft_opt_enable_hmem : ℕ
ft_opt_enable_hmem = 2 ^ 17

-- A field of a struct that was read whole.
abbrev pub field : {F : Type 0} ⦃layout : Struct F⦄ → (p : ℕ) → F → Cells → M ℕ
field p f values s = elim (values (addr_of p f)) [ none ↦ none | some v ↦ some (v, s) ]

module _ (host : Host) (lib : Library) where
  -- `moveBytes dest source count`.
  unfoldable pub move_bytes : (dest source count : ℕ) → M (Unit {0})
  move_bytes dest source count s = elim (lib.move_bytes dest source count s.cell) [
    | none ↦ none
    | some c ↦ some (tt, record s { cell = c })
  ]

  -- The hints with the length and the content of an address of `fi`, which is released.
  unfoldable pub copy_address : (h f_ : ℕ) (f : Cells) (addr addrlen : FiInfoField) → M ℤ
  copy_address h f_ f addr addrlen = do
    len ← field f_ addrlen f
    store (addr_of h addrlen) len
    dest ← load h (offsetof addr)
    source ← field f_ addr f
    move_bytes dest source len
    _ ← invoke host lib.fi_freeinfo (f_ ∷ [])
    pure (pos 0)

  -- The hints with no address.
  unfoldable pub forget_address : (h : ℕ) (h_ : Cells) (addr addrlen : FiInfoField) → M ℤ
  forget_address h h_ addr addrlen = do
    poke_struct h (sizeof FiInfoField) (update (update h_ (addr_of h addr) 0) (addr_of h addrlen) 0)
    pure (pos 0)

  unfoldable pub getaddr : Env → M ℤ
  getaddr env = alloca host 8 λ fi_. do
    h ← load env.hints 0
    h_ ← peek_struct h
    fl_ ← load env.flags 0
    s ← load env.service 0
    n ← load env.node 0
    if env.node == 0 && env.service == 0
        then if not (bit_or fl_ fi_source == 0)
          then forget_address h h_ FiInfoField.src_addr FiInfoField.src_addrlen
          else forget_address h h_ FiInfoField.dest_addr FiInfoField.dest_addrlen
        else do
          ret ← invoke host lib.fi_getinfo (ft_fiversion ∷ n ∷ s ∷ fl_ ∷ h ∷ fi_ ∷ [])
          if not (is_zero ret) then pure ret else do
            f_ ← load fi_ 0
            f ← peek_struct f_
            format ← field f_ FiInfoField.addr_format f
            poke_struct h (sizeof FiInfoField)
                (update h_ (addr_of h FiInfoField.addr_format) format)
            fl ← load env.flags 0
            if not (bit_and fl fi_source == 0)
                then copy_address h f_ f FiInfoField.src_addr FiInfoField.src_addrlen
                else copy_address h f_ f FiInfoField.dest_addr FiInfoField.dest_addrlen

  -- The options are read whole before `getaddr` is called, and its result decides only whether the
  -- node and the service are set.
  unfoldable pub ft_read_addr_opts : Env → M ℤ
  ft_read_addr_opts env = do
    o ← peek_struct env.opts
    dst_addr ← field env.opts FtOptsField.dst_addr o
    src_addr ← field env.opts FtOptsField.src_addr o
    oob_port ← field env.opts FtOptsField.oob_port o
    if not (dst_addr == 0) && (not (src_addr == 0) || (oob_port == 0))
        then (do
          ret ← getaddr env
          if is_zero ret
              then (do
                store env.node dst_addr
                dst_port ← field env.opts FtOptsField.dst_port o
                store env.service dst_port
                pure (pos 0))
              else pure (pos 0))
        else do
          store env.node src_addr
          src_port ← field env.opts FtOptsField.src_port o
          store env.service src_port
          pure (pos 0)

  -- The hints are read and written whole; but for `caps .|. 0`, their fields stay as they are.
  unfoldable pub hint_hmem : Env → (h_ : ℕ) → M (Unit {0})
  hint_hmem env h_ = do
    h ← peek_struct h_
    options ← load env.opts (offsetof FtOptsField.options)
    if bit_and options ft_opt_enable_hmem == 0
        then (do
          domain_attr ← field h_ FiInfoField.domain_attr h
          caps ← field h_ FiInfoField.caps h
          mr_mode ← load domain_attr (offsetof FiDomainAttrField.mr_mode)
          store (addr_of domain_attr FiDomainAttrField.mr_mode) (bit_or mr_mode 16)
          poke_struct h_ (sizeof FiInfoField)
              (update h (addr_of h_ FiInfoField.caps) (bit_or caps 0)))
        else pure tt

  unfoldable pub ft_getinfo : Env → M ℤ
  ft_getinfo env = do
    store env.flags 0
    ret ← ft_read_addr_opts env
    if not (is_zero ret) then pure ret else do
      h_ ← load env.hints 0
      eap ← load h_ (offsetof FiInfoField.ep_attr)
      store (addr_of eap FiEpAttrField.type) 3
      hint_hmem env h_
      h ← load env.hints 0
      f ← load env.flags 0
      n ← load env.node 0
      s ← load env.service 0
      _ ← invoke host lib.fi_getinfo (ft_fiversion ∷ n ∷ s ∷ f ∷ h ∷ env.fi ∷ [])
      pure (pos 0)
