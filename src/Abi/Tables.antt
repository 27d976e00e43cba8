-- ===== src/Abi/Tables.antt =====
-- The tables of offsets of the attributes and options, against their declarations.
use xlibfabric.Base.{ℕ, ◌≡◌, refl, List, map}
use xlibfabric.Machine.{Struct, offsetof, sizeof}
use xlibfabric.Abi.{lp64, Kind, Members, kinds, offsets, end_of, struct_of, align_up}
use xlibfabric.Abi.Order.{InOrder, struct-InOrder}
use xlibfabric.Abi.Attributes.{
  fi_info_members, fi_tx_attr_members, fi_rx_attr_members, fi_ep_attr_members,
  fi_domain_attr_members, fi_av_attr_members, fi_eq_attr_members, fi_cq_attr_members,
  fi_cntr_attr_members, ft_opts_members,
}
use xlibfabric.Fabric.InfoFields.{
  FiInfoField, fi_info_field_layout, FiTxAttrField, fi_tx_attr_field_layout, FiRxAttrField,
  fi_rx_attr_field_layout, FiEpAttrField, fi_ep_attr_field_layout, FiDomainAttrField,
  fi_domain_attr_field_layout,
}
use xlibfabric.Domain.AvAttr.{FiAvAttr, fi_av_attr_layout}
use xlibfabric.Eq.Attr.{
  FiEqAttr, fi_eq_attr_layout, FiCqAttr, fi_cq_attr_layout, FiCntrAttr, fi_cntr_attr_layout,
}
use xlibfabric.Shared.OptsFields.{FtOptsField, ft_opts_field_layout}

-- The structs whose fields the development reads and writes by their offsets.
pub data Table : Type 0 where
  info tx_attr rx_attr ep_attr domain_attr av_attr eq_attr cq_attr cntr_attr opts : Table

abbrev pub declared : Table → List Kind
declared info = kinds (fi_info_members lp64)
declared tx_attr = kinds (fi_tx_attr_members lp64)
declared rx_attr = kinds (fi_rx_attr_members lp64)
declared ep_attr = kinds (fi_ep_attr_members lp64)
declared domain_attr = kinds (fi_domain_attr_members lp64)
declared av_attr = kinds (fi_av_attr_members lp64)
declared eq_attr = kinds (fi_eq_attr_members lp64)
declared cq_attr = kinds (fi_cq_attr_members lp64)
declared cntr_attr = kinds (fi_cntr_attr_members lp64)
declared opts = kinds (ft_opts_members lp64)

-- The offsets of the table, in the order of the declaration, and the size.
abbrev offsets_in : {F : Type 0} ⦃layout : Struct F⦄ → Members F → List ℕ
offsets_in ms = map (λ m. offsetof m.0) ms

abbrev pub tabled : Table → List ℕ
tabled info = offsets_in (fi_info_members lp64)
tabled tx_attr = offsets_in (fi_tx_attr_members lp64)
tabled rx_attr = offsets_in (fi_rx_attr_members lp64)
tabled ep_attr = offsets_in (fi_ep_attr_members lp64)
tabled domain_attr = offsets_in (fi_domain_attr_members lp64)
tabled av_attr = offsets_in (fi_av_attr_members lp64)
tabled eq_attr = offsets_in (fi_eq_attr_members lp64)
tabled cq_attr = offsets_in (fi_cq_attr_members lp64)
tabled cntr_attr = offsets_in (fi_cntr_attr_members lp64)
tabled opts = offsets_in (ft_opts_members lp64)

abbrev pub tabled_size : Table → ℕ
tabled_size info = sizeof FiInfoField
tabled_size tx_attr = sizeof FiTxAttrField
tabled_size rx_attr = sizeof FiRxAttrField
tabled_size ep_attr = sizeof FiEpAttrField
tabled_size domain_attr = sizeof FiDomainAttrField
tabled_size av_attr = sizeof FiAvAttr
tabled_size eq_attr = sizeof FiEqAttr
tabled_size cq_attr = sizeof FiCqAttr
tabled_size cntr_attr = sizeof FiCntrAttr
tabled_size opts = sizeof FtOptsField

tabled_lem :
    (t : Table)
    → (tabled t ≡ offsets 0 (declared t)) × (tabled_size t ≡ (struct_of (declared t)).size)
unfolding offsets end_of align_up
tabled_lem info = (refl, refl)
tabled_lem tx_attr = (refl, refl)
tabled_lem rx_attr = (refl, refl)
tabled_lem ep_attr = (refl, refl)
tabled_lem domain_attr = (refl, refl)
tabled_lem av_attr = (refl, refl)
tabled_lem eq_attr = (refl, refl)
tabled_lem cq_attr = (refl, refl)
tabled_lem cntr_attr = (refl, refl)
tabled_lem opts = (refl, refl)

-- In each of the tables the fields have the offsets of the declaration, and so they are aligned, lie one
-- behind the other without overlap, and end within the size of the struct.
pub tabled-InOrder :
    (t : Table)
    → (tabled t ≡ offsets 0 (declared t))
      × (tabled_size t ≡ (struct_of (declared t)).size)
      × InOrder 0 (tabled t) (declared t) (tabled_size t)
tabled-InOrder t =
    let (same, size) = tabled_lem t in (same, size, rw (same, size) (struct-InOrder (declared t)))
