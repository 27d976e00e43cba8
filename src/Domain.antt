-- ===== src/Domain.antt =====
-- include/fi_domain.h: the inline functions on domains, memory regions and address vectors.
pub mod Layout
pub mod Dispatch
pub mod Regions
pub mod Address
pub mod Refresh
pub mod AvAttr
use Layout.{
  FiOpsAv, FidAv, FidMr, FiMrAttr, FiMrModify, FiOpsDomain, FiOpsMr, FidDomain, fi_ops_av_layout,
  fid_av_layout, fid_mr_layout, fi_mr_attr_layout, fi_mr_modify_layout, fi_ops_domain_layout,
  fi_ops_mr_layout, fid_domain_layout,
}
use xlibfabric.Base.{ℕ, zero, suc, ◌+◌, ◌/◌, List, [], ◌∷◌, ℤ}
use xlibfabric.Machine.{Host, M, load, frame, assign, vcall, sizeof, addr_of, offsetof, pure, ◌>>◌}
use xlibfabric.Fabric.Layout.{
  Fid, FiOps, FidFabric, FiOpsFabric, FiMrRawAttr, FiMrMapRaw, command_code, get_raw_mr, map_raw_mr,
  unmap_key, refresh, enable, fid_layout, fi_ops_layout, fid_fabric_layout, fi_ops_fabric_layout,
  fi_mr_raw_attr_layout, fi_mr_map_raw_layout,
}

-- `memset(p, 0, 8 * n)` on a local variable.
unfoldable pub clear : ℕ → ℕ → M (Unit {0})
clear p zero = pure tt
clear p (suc n) = assign p 0 >> clear (p + 8) n

module _ (host : Host) where
  unfoldable pub fi_domain : (fabric info domain context : ℕ) → M ℤ
  fi_domain fabric info domain context =
      vcall host fabric FidFabric.ops FiOpsFabric.domain (fabric ∷ info ∷ domain ∷ context ∷ [])

  unfoldable pub fi_domain_bind : (domain fid flags : ℕ) → M ℤ
  fi_domain_bind domain fid flags =
      vcall host (addr_of domain FidDomain.fid) Fid.ops FiOps.bind
        ((addr_of domain FidDomain.fid) ∷ fid ∷ flags ∷ [])

  unfoldable pub fi_cq_open : (domain attr cq context : ℕ) → M ℤ
  fi_cq_open domain attr cq context =
      vcall host domain FidDomain.ops FiOpsDomain.cq_open (domain ∷ attr ∷ cq ∷ context ∷ [])

  unfoldable pub fi_cntr_open : (domain attr cntr context : ℕ) → M ℤ
  fi_cntr_open domain attr cntr context =
      vcall host domain FidDomain.ops FiOpsDomain.cntr_open (domain ∷ attr ∷ cntr ∷ context ∷ [])

  unfoldable pub fi_wait_open : (fabric attr waitset : ℕ) → M ℤ
  fi_wait_open fabric attr waitset =
      vcall host fabric FidFabric.ops FiOpsFabric.wait_open (fabric ∷ attr ∷ waitset ∷ [])

  unfoldable pub fi_poll_open : (domain attr pollset : ℕ) → M ℤ
  fi_poll_open domain attr pollset =
      vcall host domain FidDomain.ops FiOpsDomain.poll_open (domain ∷ attr ∷ pollset ∷ [])

  unfoldable pub fi_mr_reg : (domain buf len acs offset requested_key flags mr context : ℕ) → M ℤ
  fi_mr_reg domain buf len acs offset requested_key flags mr context =
      vcall host domain FidDomain.mr FiOpsMr.reg (
        (addr_of domain FidDomain.fid)
        ∷ buf
        ∷ len
        ∷ acs
        ∷ offset
        ∷ requested_key
        ∷ flags
        ∷ mr
        ∷ context
        ∷ [])

  unfoldable pub fi_mr_regv : (domain iov count acs offset requested_key flags mr context : ℕ) → M ℤ
  fi_mr_regv domain iov count acs offset requested_key flags mr context =
      vcall host domain FidDomain.mr FiOpsMr.regv (
        (addr_of domain FidDomain.fid)
        ∷ iov
        ∷ count
        ∷ acs
        ∷ offset
        ∷ requested_key
        ∷ flags
        ∷ mr
        ∷ context
        ∷ [])

  unfoldable pub fi_mr_regattr : (domain attr flags mr : ℕ) → M ℤ
  fi_mr_regattr domain attr flags mr =
      vcall host domain FidDomain.mr FiOpsMr.regattr
        ((addr_of domain FidDomain.fid) ∷ attr ∷ flags ∷ mr ∷ [])

  unfoldable pub fi_mr_desc : (mr : ℕ) → M ℕ
  fi_mr_desc mr = load mr (offsetof FidMr.mem_desc)

  unfoldable pub fi_mr_key : (mr : ℕ) → M ℕ
  fi_mr_key mr = load mr (offsetof FidMr.key)

  unfoldable pub fi_mr_raw_attr : (mr base_addr raw_key key_size flags : ℕ) → M ℤ
  fi_mr_raw_attr mr base_addr raw_key key_size flags = frame (sizeof FiMrRawAttr) λ attr. do
    assign (addr_of attr FiMrRawAttr.flags) flags
    assign (addr_of attr FiMrRawAttr.base_addr) base_addr
    assign (addr_of attr FiMrRawAttr.raw_key) raw_key
    assign (addr_of attr FiMrRawAttr.key_size) key_size
    vcall host (addr_of mr FidMr.fid) Fid.ops FiOps.control
        ((addr_of mr FidMr.fid) ∷ command_code get_raw_mr ∷ attr ∷ [])

  unfoldable pub fi_mr_map_raw : (domain base_addr raw_key key_size key flags : ℕ) → M ℤ
  fi_mr_map_raw domain base_addr raw_key key_size key flags = frame (sizeof FiMrMapRaw) λ raw. do
    assign (addr_of raw FiMrMapRaw.flags) flags
    assign (addr_of raw FiMrMapRaw.base_addr) base_addr
    assign (addr_of raw FiMrMapRaw.raw_key) raw_key
    assign (addr_of raw FiMrMapRaw.key_size) key_size
    assign (addr_of raw FiMrMapRaw.key) key
    vcall host (addr_of domain FidDomain.fid) Fid.ops FiOps.control
        ((addr_of domain FidDomain.fid) ∷ command_code map_raw_mr ∷ raw ∷ [])

  -- The parameter `key` lives in the frame, and its address is passed.
  unfoldable pub fi_mr_unmap_key : (domain key : ℕ) → M ℤ
  fi_mr_unmap_key domain key = frame 8 λ key_addr. do
    assign key_addr key
    vcall host (addr_of domain FidDomain.fid) Fid.ops FiOps.control
        ((addr_of domain FidDomain.fid) ∷ command_code unmap_key ∷ key_addr ∷ [])

  unfoldable pub fi_mr_bind : (mr bfid flags : ℕ) → M ℤ
  fi_mr_bind mr bfid flags =
      vcall host (addr_of mr FidMr.fid) Fid.ops FiOps.bind
        ((addr_of mr FidMr.fid) ∷ bfid ∷ flags ∷ [])

  unfoldable pub fi_mr_refresh : (mr iov count flags : ℕ) → M ℤ
  fi_mr_refresh mr iov count flags = frame (sizeof FiMrModify) λ modify. do
    clear modify (sizeof FiMrModify / 8)
    assign (addr_of modify FiMrModify.flags) flags
    assign (addr_of (addr_of modify FiMrModify.attr) FiMrAttr.mr_iov) iov
    assign (addr_of (addr_of modify FiMrModify.attr) FiMrAttr.iov_count) count
    vcall host (addr_of mr FidMr.fid) Fid.ops FiOps.control
        ((addr_of mr FidMr.fid) ∷ command_code refresh ∷ modify ∷ [])

  unfoldable pub fi_mr_enable : (mr : ℕ) → M ℤ
  fi_mr_enable mr =
      vcall host (addr_of mr FidMr.fid) Fid.ops FiOps.control
        ((addr_of mr FidMr.fid) ∷ command_code enable ∷ 0 ∷ [])

  unfoldable pub fi_av_open : (domain attr av context : ℕ) → M ℤ
  fi_av_open domain attr av context =
      vcall host domain FidDomain.ops FiOpsDomain.av_open (domain ∷ attr ∷ av ∷ context ∷ [])

  unfoldable pub fi_av_bind : (av fid flags : ℕ) → M ℤ
  fi_av_bind av fid flags =
      vcall host (addr_of av FidAv.fid) Fid.ops FiOps.bind
        ((addr_of av FidAv.fid) ∷ fid ∷ flags ∷ [])

  unfoldable pub fi_av_insert : (av addr count fi_addr flags context : ℕ) → M ℤ
  fi_av_insert av addr count fi_addr flags context =
      vcall host av FidAv.ops FiOpsAv.insert (av ∷ addr ∷ count ∷ fi_addr ∷ flags ∷ context ∷ [])

  unfoldable pub fi_av_insertsvc : (av node service fi_addr flags context : ℕ) → M ℤ
  fi_av_insertsvc av node service fi_addr flags context =
      vcall host av FidAv.ops FiOpsAv.insertsvc
        (av ∷ node ∷ service ∷ fi_addr ∷ flags ∷ context ∷ [])

  unfoldable pub fi_av_insertsym : (av node nodecnt service svccnt fi_addr flags context : ℕ) → M ℤ
  fi_av_insertsym av node nodecnt service svccnt fi_addr flags context =
      vcall host av FidAv.ops FiOpsAv.insertsym
        (av ∷ node ∷ nodecnt ∷ service ∷ svccnt ∷ fi_addr ∷ flags ∷ context ∷ [])

  unfoldable pub fi_av_remove : (av fi_addr count flags : ℕ) → M ℤ
  fi_av_remove av fi_addr count flags =
      vcall host av FidAv.ops FiOpsAv.remove (av ∷ fi_addr ∷ count ∷ flags ∷ [])

  unfoldable pub fi_av_lookup : (av fi_addr addr addrlen : ℕ) → M ℤ
  fi_av_lookup av fi_addr addr addrlen =
      vcall host av FidAv.ops FiOpsAv.lookup (av ∷ fi_addr ∷ addr ∷ addrlen ∷ [])

  unfoldable pub fi_av_straddr : (av addr buf len : ℕ) → M ℤ
  fi_av_straddr av addr buf len =
      vcall host av FidAv.ops FiOpsAv.straddr (av ∷ addr ∷ buf ∷ len ∷ [])
