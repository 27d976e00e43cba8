-- ===== src/Eq.antt =====
-- include/fi_eq.h: the inline functions on wait sets, poll sets, event and completion queues and
-- counters. A `uint64_t` or pointer result stands as a non-negative integer.
pub mod Layout
pub mod Dispatch
pub mod Attr
pub mod Entries
use Layout.{
  FiOpsWait, FidWait, FiOpsPoll, FidPoll, FiOpsEq, FidEq, FiOpsCq, FidCq, FiOpsCntr, FidCntr,
  fi_ops_wait_layout, fid_wait_layout, fi_ops_poll_layout, fid_poll_layout, fi_ops_eq_layout,
  fid_eq_layout, fi_ops_cq_layout, fid_cq_layout, fi_ops_cntr_layout, fid_cntr_layout,
}
use xlibfabric.Base.{ℕ, List, [], ◌∷◌, ℤ}
use xlibfabric.Machine.{Host, M, vcall}
use xlibfabric.Fabric.CheckOp.{checked_vcall}
use xlibfabric.Fabric.Layout.{FidFabric, FiOpsFabric, fid_fabric_layout, fi_ops_fabric_layout}

module _ (host : Host) where
  unfoldable pub fi_trywait : (fabric fids count : ℕ) → M ℤ
  fi_trywait fabric fids count =
      vcall host fabric FidFabric.ops FiOpsFabric.trywait (fabric ∷ fids ∷ count ∷ [])

  unfoldable pub fi_wait : (waitset timeout : ℕ) → M ℤ
  fi_wait waitset timeout = vcall host waitset FidWait.ops FiOpsWait.wait (waitset ∷ timeout ∷ [])

  unfoldable pub fi_poll : (pollset context count : ℕ) → M ℤ
  fi_poll pollset context count =
      vcall host pollset FidPoll.ops FiOpsPoll.poll (pollset ∷ context ∷ count ∷ [])

  unfoldable pub fi_poll_add : (pollset event_fid flags : ℕ) → M ℤ
  fi_poll_add pollset event_fid flags =
      vcall host pollset FidPoll.ops FiOpsPoll.poll_add (pollset ∷ event_fid ∷ flags ∷ [])

  unfoldable pub fi_poll_del : (pollset event_fid flags : ℕ) → M ℤ
  fi_poll_del pollset event_fid flags =
      vcall host pollset FidPoll.ops FiOpsPoll.poll_del (pollset ∷ event_fid ∷ flags ∷ [])

  unfoldable pub fi_eq_open : (fabric attr eq context : ℕ) → M ℤ
  fi_eq_open fabric attr eq context =
      vcall host fabric FidFabric.ops FiOpsFabric.eq_open (fabric ∷ attr ∷ eq ∷ context ∷ [])

  unfoldable pub fi_eq_read : (eq event buf len flags : ℕ) → M ℤ
  fi_eq_read eq event buf len flags =
      vcall host eq FidEq.ops FiOpsEq.read (eq ∷ event ∷ buf ∷ len ∷ flags ∷ [])

  unfoldable pub fi_eq_readerr : (eq buf flags : ℕ) → M ℤ
  fi_eq_readerr eq buf flags = vcall host eq FidEq.ops FiOpsEq.readerr (eq ∷ buf ∷ flags ∷ [])

  unfoldable pub fi_eq_write : (eq event buf len flags : ℕ) → M ℤ
  fi_eq_write eq event buf len flags =
      vcall host eq FidEq.ops FiOpsEq.write (eq ∷ event ∷ buf ∷ len ∷ flags ∷ [])

  unfoldable pub fi_eq_sread : (eq event buf len timeout flags : ℕ) → M ℤ
  fi_eq_sread eq event buf len timeout flags =
      vcall host eq FidEq.ops FiOpsEq.sread (eq ∷ event ∷ buf ∷ len ∷ timeout ∷ flags ∷ [])

  unfoldable pub fi_eq_strerror : (eq prov_errno err_data buf len : ℕ) → M ℤ
  fi_eq_strerror eq prov_errno err_data buf len =
      vcall host eq FidEq.ops FiOpsEq.strerror (eq ∷ prov_errno ∷ err_data ∷ buf ∷ len ∷ [])

  unfoldable pub fi_cq_read : (cq buf count : ℕ) → M ℤ
  fi_cq_read cq buf count = vcall host cq FidCq.ops FiOpsCq.read (cq ∷ buf ∷ count ∷ [])

  unfoldable pub fi_cq_readfrom : (cq buf count src_addr : ℕ) → M ℤ
  fi_cq_readfrom cq buf count src_addr =
      vcall host cq FidCq.ops FiOpsCq.readfrom (cq ∷ buf ∷ count ∷ src_addr ∷ [])

  unfoldable pub fi_cq_readerr : (cq buf flags : ℕ) → M ℤ
  fi_cq_readerr cq buf flags = vcall host cq FidCq.ops FiOpsCq.readerr (cq ∷ buf ∷ flags ∷ [])

  unfoldable pub fi_cq_sread : (cq buf count cond timeout : ℕ) → M ℤ
  fi_cq_sread cq buf count cond timeout =
      vcall host cq FidCq.ops FiOpsCq.sread (cq ∷ buf ∷ count ∷ cond ∷ timeout ∷ [])

  unfoldable pub fi_cq_sreadfrom : (cq buf count src_addr cond timeout : ℕ) → M ℤ
  fi_cq_sreadfrom cq buf count src_addr cond timeout =
      vcall host cq FidCq.ops FiOpsCq.sreadfrom (cq ∷ buf ∷ count ∷ src_addr ∷ cond ∷ timeout ∷ [])

  unfoldable pub fi_cq_signal : (cq : ℕ) → M ℤ
  fi_cq_signal cq = vcall host cq FidCq.ops FiOpsCq.signal (cq ∷ [])

  unfoldable pub fi_cq_strerror : (cq prov_errno err_data buf len : ℕ) → M ℤ
  fi_cq_strerror cq prov_errno err_data buf len =
      vcall host cq FidCq.ops FiOpsCq.strerror (cq ∷ prov_errno ∷ err_data ∷ buf ∷ len ∷ [])

  unfoldable pub fi_cntr_read : (cntr : ℕ) → M ℤ
  fi_cntr_read cntr = vcall host cntr FidCntr.ops FiOpsCntr.read (cntr ∷ [])

  unfoldable pub fi_cntr_readerr : (cntr : ℕ) → M ℤ
  fi_cntr_readerr cntr = vcall host cntr FidCntr.ops FiOpsCntr.readerr (cntr ∷ [])

  unfoldable pub fi_cntr_add : (cntr value : ℕ) → M ℤ
  fi_cntr_add cntr value = vcall host cntr FidCntr.ops FiOpsCntr.add (cntr ∷ value ∷ [])

  unfoldable pub fi_cntr_adderr : (cntr value : ℕ) → M ℤ
  fi_cntr_adderr cntr value =
      checked_vcall host cntr FidCntr.ops FiOpsCntr.adderr (cntr ∷ value ∷ [])

  unfoldable pub fi_cntr_set : (cntr value : ℕ) → M ℤ
  fi_cntr_set cntr value = vcall host cntr FidCntr.ops FiOpsCntr.set (cntr ∷ value ∷ [])

  unfoldable pub fi_cntr_seterr : (cntr value : ℕ) → M ℤ
  fi_cntr_seterr cntr value =
      checked_vcall host cntr FidCntr.ops FiOpsCntr.seterr (cntr ∷ value ∷ [])

  unfoldable pub fi_cntr_wait : (cntr threshold timeout : ℕ) → M ℤ
  fi_cntr_wait cntr threshold timeout =
      vcall host cntr FidCntr.ops FiOpsCntr.wait (cntr ∷ threshold ∷ timeout ∷ [])
