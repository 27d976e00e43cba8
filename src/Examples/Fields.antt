-- ===== src/Examples/Fields.antt =====
-- Runs of the functions on packed numbers.
use xlibfabric.Base.{arith, ◌≡◌, ◌≤◌, ◌<◌, ◌↔◌, ◌^◌, ◌/◌, ◌*◌, ◌+◌, some, true, pos, negsuc, ℕ}
use xlibfabric.Fabric.Version.{fi_version_ge, fi_version_lt, fi_version-order}
use xlibfabric.Fabric.TrafficClass.{
  dscp, label, class_code, fi_tc_dscp_set, fi_tc_dscp_get, fi_tc_dscp_get-set, fi_tc_dscp_set-get,
}
use xlibfabric.Domain.Address.{fi_rx_addr, index_of, base_of, fi_rx_addr-fields, fields-fi_rx_addr}
use xlibfabric.Shared.ExitCode.{ft_exit_code, ft_exit_code-range}

fi_version-order_example :
    ((fi_version_ge 65546 65545 ≡ true) ↔ (65545 ≤ 65546))
    × ((fi_version_lt 65546 65545 ≡ true) ↔ (65546 < 65545))
fi_version-order_example = fi_version-order 65546 65545

abbrev forty_six : ℕ
forty_six = 46

fi_tc_dscp_get-set_example :
    (fi_tc_dscp_get (fi_tc_dscp_set 46) ≡ 46)
    × ((fi_tc_dscp_set 46 ≡ class_code label) ↔ ((label ≡ dscp) × (forty_six ≡ 0)))
fi_tc_dscp_get-set_example = fi_tc_dscp_get-set 46 label (omega arith)

fi_rx_addr-fields_example :
    (w : ℕ) × (fi_rx_addr 5 (pos 3) 4 ≡ some w)
    × (w < 2 ^ 64)
    × (index_of 4 w ≡ 3)
    × (base_of 4 w ≡ 5)
fi_rx_addr-fields_example =
    fi_rx_addr-fields 4 3 5 (omega arith) (omega arith) (omega arith) (omega arith) (omega arith)

fields-fi_rx_addr_example :
    fi_rx_addr (base_of 8 (5 * 2 ^ 56 + 12345)) (pos (index_of 8 (5 * 2 ^ 56 + 12345))) 8
    ≡ some (5 * 2 ^ 56 + 12345)
fields-fi_rx_addr_example =
    fields-fi_rx_addr 8 (5 * 2 ^ 56 + 12345) (omega arith) (omega arith) (omega arith) (omega arith)

ft_exit_code-range_example :
    (code : ℕ) × (ft_exit_code 1 (negsuc 10) ≡ some code)
    × (code ≤ 255)
    × ((code ≡ 0) ↔ (negsuc 10 ≡ pos 0))
ft_exit_code-range_example =
    ft_exit_code-range 1 (negsuc 10) (omega arith) (λ e. ground arith) (omega arith) (omega arith)

fi_tc_dscp_set-get_example :
    ((fi_tc_dscp_set (fi_tc_dscp_get 302) ≡ 302) ↔ (302 / 2 ^ 8 ≡ 1))
    × (fi_tc_dscp_get (class_code label) ≡ 0)
fi_tc_dscp_set-get_example = fi_tc_dscp_set-get 302 label
