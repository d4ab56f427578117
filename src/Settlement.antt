-- ===== src/Settlement.antt =====
-- The limit on forced settlements: `asset_bitasset_data_object::max_force_settlement_volume` of
-- libraries/chain/asset_object.cpp.
pub mod Volume
mod Examples
use bitshares_toolkit.Common.{ℕ, ◌==◌, Option, some, if◌then◌else◌}
use bitshares_toolkit.Common.Int.{ℤ, pos, ◌+ℤ◌}
use bitshares_toolkit.Fc.{Fc}

-- `BTS_100_PERCENT`
abbrev pub hundred_percent : ℕ
hundred_percent = 10000

-- The fields that it reads: `options.maximum_force_settlement_volume`, a `uint16_t`, and
-- `force_settled_volume`. The sum of the two `value`s is not checked.
pub record BitassetData : Type 0 where
  pub maximum_force_settlement_volume : ℕ
  pub force_settled_volume : ℤ

unfoldable pub max_force_settlement_volume : Fc → BitassetData → ℤ → Option ℤ
max_force_settlement_volume fc b current_supply =
    if b.maximum_force_settlement_volume == 0
    then some (pos 0)
    else if b.maximum_force_settlement_volume == hundred_percent
    then fc.safe_add current_supply b.force_settled_volume
    else let volume =
        fc.mul128 (fc.to_uint128 (current_supply +ℤ b.force_settled_volume))
          b.maximum_force_settlement_volume in
      some (pos (fc.to_uint64 (fc.div128 volume hundred_percent)))
