-- ===== src/Settlement/Examples.antt =====
-- A settlement limit at concrete values.
use bitshares_toolkit.Common.{◌+◌, ◌*◌, ◌/◌, ◌≤◌, ◌≡◌, some, arith}
use bitshares_toolkit.Common.Int.{pos}
use bitshares_toolkit.Fc.Native.{native_fc}
use bitshares_toolkit.Settlement.{max_force_settlement_volume}
use bitshares_toolkit.Settlement.Volume.{max_force_settlement_volume_lem}

-- Twenty percent of a supply of 990 of which 10 more have been settled.
max_force_settlement_volume_lem_example :
    (max_force_settlement_volume native_fc
        (record { maximum_force_settlement_volume = 2000; force_settled_volume = pos 10 })
        (pos 990)
      ≡ some (pos ((990 + 10) * 2000 / 10000)))
    × ((990 + 10) * 2000 / 10000 ≤ 990 + 10)
max_force_settlement_volume_lem_example =
    max_force_settlement_volume_lem native_fc 2000 10 990 (omega arith) (omega arith)
