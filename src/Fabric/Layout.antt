-- ===== src/Fabric/Layout.antt =====
-- include/fabric.h: the object header `struct fid`, its operations, the fabric object, and the
-- structs that `fi_control` passes, by their fields.
use xlibfabric.Base.{ℕ}
use xlibfabric.Machine.{Struct}

-- struct fi_ops; its `size` is at offset 0.
pub data FiOps : Type 0 where
  close bind control ops_open tostr ops_set : FiOps

abbrev pub fi_ops_offset : FiOps → ℕ
fi_ops_offset close = 8
fi_ops_offset bind = 16
fi_ops_offset control = 24
fi_ops_offset ops_open = 32
fi_ops_offset tostr = 40
fi_ops_offset ops_set = 48

instance abbrev pub fi_ops_layout : Struct FiOps
fi_ops_layout = record { offset = fi_ops_offset; bytes = 56 }

-- struct fid
pub data Fid : Type 0 where
  fclass context ops : Fid

abbrev pub fid_offset : Fid → ℕ
fid_offset fclass = 0
fid_offset context = 8
fid_offset ops = 16

instance abbrev pub fid_layout : Struct Fid
fid_layout = record { offset = fid_offset; bytes = 24 }

-- struct fi_ops_fabric; its `size` is at offset 0.
pub data FiOpsFabric : Type 0 where
  domain passive_ep eq_open wait_open trywait : FiOpsFabric

abbrev pub fi_ops_fabric_offset : FiOpsFabric → ℕ
fi_ops_fabric_offset domain = 8
fi_ops_fabric_offset passive_ep = 16
fi_ops_fabric_offset eq_open = 24
fi_ops_fabric_offset wait_open = 32
fi_ops_fabric_offset trywait = 40

instance abbrev pub fi_ops_fabric_layout : Struct FiOpsFabric
fi_ops_fabric_layout = record { offset = fi_ops_fabric_offset; bytes = 48 }

-- struct fid_fabric
pub data FidFabric : Type 0 where
  fid ops api_version : FidFabric

abbrev pub fid_fabric_offset : FidFabric → ℕ
fid_fabric_offset fid = 0
fid_fabric_offset ops = 24
fid_fabric_offset api_version = 32

instance abbrev pub fid_fabric_layout : Struct FidFabric
fid_fabric_layout = record { offset = fid_fabric_offset; bytes = 40 }

-- struct fi_alias
pub data FiAlias : Type 0 where
  fid flags : FiAlias

abbrev pub fi_alias_field_offset : FiAlias → ℕ
fi_alias_field_offset fid = 0
fi_alias_field_offset flags = 8

instance abbrev pub fi_alias_layout : Struct FiAlias
fi_alias_layout = record { offset = fi_alias_field_offset; bytes = 16 }

-- struct fi_mr_raw_attr
pub data FiMrRawAttr : Type 0 where
  flags base_addr raw_key key_size : FiMrRawAttr

abbrev pub fi_mr_raw_attr_offset : FiMrRawAttr → ℕ
fi_mr_raw_attr_offset flags = 0
fi_mr_raw_attr_offset base_addr = 8
fi_mr_raw_attr_offset raw_key = 16
fi_mr_raw_attr_offset key_size = 24

instance abbrev pub fi_mr_raw_attr_layout : Struct FiMrRawAttr
fi_mr_raw_attr_layout = record { offset = fi_mr_raw_attr_offset; bytes = 32 }

-- struct fi_mr_map_raw
pub data FiMrMapRaw : Type 0 where
  flags base_addr raw_key key_size key : FiMrMapRaw

abbrev pub fi_mr_map_raw_offset : FiMrMapRaw → ℕ
fi_mr_map_raw_offset flags = 0
fi_mr_map_raw_offset base_addr = 8
fi_mr_map_raw_offset raw_key = 16
fi_mr_map_raw_offset key_size = 24
fi_mr_map_raw_offset key = 32

instance abbrev pub fi_mr_map_raw_layout : Struct FiMrMapRaw
fi_mr_map_raw_layout = record { offset = fi_mr_map_raw_offset; bytes = 40 }

-- The control commands.
pub data Command : Type 0 where
  getfidflag setfidflag getopsflag setopsflag alias getwait enable backlog get_raw_mr map_raw_mr
        unmap_key queue_work cancel_work flush_work refresh dup getwaitobj :
      Command

abbrev pub command_code : Command → ℕ
command_code getfidflag = 0
command_code setfidflag = 1
command_code getopsflag = 2
command_code setopsflag = 3
command_code alias = 4
command_code getwait = 5
command_code enable = 6
command_code backlog = 7
command_code get_raw_mr = 8
command_code map_raw_mr = 9
command_code unmap_key = 10
command_code queue_work = 11
command_code cancel_work = 12
command_code flush_work = 13
command_code refresh = 14
command_code dup = 15
command_code getwaitobj = 16
