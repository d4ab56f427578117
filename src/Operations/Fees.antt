-- ===== src/Operations/Fees.antt =====
-- The fees of libraries/chain/operations.cpp that depend on more than a `fee_type`.
use bitshares_toolkit.Common.{
  ℕ, zero, suc, ◌+◌, ◌-◌, ◌*◌, ◌/◌, ◌%◌, ◌^◌, Option, some, none, leb, if◌then◌else◌, ◌>>=◌, ◌>>◌,
  fc_assert, length,
}
use bitshares_toolkit.Common.Int.{ℤ, pos, pos_part}
use bitshares_toolkit.Fc.{Fc}
use bitshares_toolkit.Names.{is_cheap_name}
use bitshares_toolkit.Operations.{FeeSchedule, fee_at, MemoData}
use bitshares_toolkit.Operations.Accounts.{AccountCreateOperation, AccountUpdateOperation}
use bitshares_toolkit.Operations.Assets.{AssetCreateOperation}
use bitshares_toolkit.Operations.Permissions.{FileWriteOperation, CustomOperation}

abbrev pub account_create_fee_type : ℕ
account_create_fee_type = 1

abbrev pub transfer_fee_type : ℕ
transfer_fee_type = 12

abbrev pub asset_create_fee_type : ℕ
asset_create_fee_type = 16

abbrev pub data_fee_type : ℕ
data_fee_type = 23

abbrev pub prime_upgrade_fee_type : ℕ
prime_upgrade_fee_type = 26

abbrev pub file_storage_fee_per_day_type : ℕ
file_storage_fee_per_day_type = 32

unfoldable pub account_create_fee : FeeSchedule → AccountCreateOperation → Option ℤ
account_create_fee k op =
    let s = if is_cheap_name op.name then 63 else length op.name % 2 ^ 32 in
    do
      bts_fee_required ← fee_at k account_create_fee_type
      fc_assert (leb 2 s)
      if leb s 8 then fee_at k (account_create_fee_type + 9 - s) else some bts_fee_required

unfoldable pub account_update_fee : FeeSchedule → AccountUpdateOperation → Option ℤ
account_update_fee k op =
    if op.upgrade_to_prime
    then fee_at k prime_upgrade_fee_type
    else fee_at k account_create_fee_type

-- `while( s <= 6 ) { bts_fee_required *= 30; ++s; }`: at most seven rounds.
unfoldable pub raise_fee : Fc → ℕ → ℕ → ℤ → Option ℤ
raise_fee fc zero s fee = some fee
raise_fee fc (suc rounds) s fee =
    if leb s 6
    then (do raised ← fc.safe_mul fee (pos 30); raise_fee fc rounds (s + 1) raised)
    else some fee

unfoldable pub asset_create_fee : Fc → FeeSchedule → AssetCreateOperation → Option ℤ
asset_create_fee fc k op = do
  bts_fee_required ← fee_at k asset_create_fee_type
  raise_fee fc 7 (length op.symbol % 2 ^ 32) bts_fee_required

-- `( size * schedule.at( data_fee_type ).value )/1024` on `size_t`
abbrev pub data_cost : ℕ → ℤ → ℕ
data_cost size fee = size * pos_part fee % 2 ^ 64 / 1024

-- The fee of a transfer and of the claim of a withdrawal permission.
unfoldable pub memo_fee : Fc → FeeSchedule → Option MemoData → Option ℤ
memo_fee fc k memo = do
  bts_fee_required ← fee_at k transfer_fee_type
  elim memo [
    | none ↦ some bts_fee_required
    | some m ↦ (do
      fee ← fee_at k data_fee_type
      fc.safe_add bts_fee_required (pos (data_cost (length m.message) fee)))
  ]

-- The first part is computed in `int64_t`, the sum in `size_t`. A signed overflow, which a lease of
-- less than ten years excludes, has no defined result; the product is left exact there.
unfoldable pub file_write_fee : FeeSchedule → FileWriteOperation → Option ℤ
file_write_fee k op = do
  per_day ← fee_at k file_storage_fee_per_day_type
  fee ← fee_at k data_fee_type
  let storage = pos_part per_day * op.lease_seconds / (60 * 60 * 24) * op.file_size / 255
  some (pos ((storage + data_cost (length op.bytes) fee) % 2 ^ 64))

unfoldable pub custom_fee : FeeSchedule → CustomOperation → Option ℤ
custom_fee k op = do fee ← fee_at k data_fee_type; some (pos (data_cost (length op.bytes) fee))
