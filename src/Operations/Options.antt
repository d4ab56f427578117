-- ===== src/Operations/Options.antt =====
-- The parts of operations that are validated by themselves: `authority` (authority.hpp),
-- `asset_options` and `bitasset_options` (asset_object.hpp and asset_object.cpp), and
-- `chain_parameters` (types.hpp).
use bitshares_toolkit.Common.{
  ℕ, zero, suc, ◌+◌, ◌-◌, ◌*◌, ◌/◌, ◌%◌, ◌^◌, Bool, true, ◌&&◌, ◌||◌, not, Option, some, List, ltb,
  leb, ◌==◌, if◌then◌else◌, ◌>>=◌, ◌>>◌, fc_assert, fc_assert_if,
}
use bitshares_toolkit.Common.Int.{ℤ, pos, leb_ℤ}
use bitshares_toolkit.Common.Maps.{Map}
use bitshares_toolkit.Asset.{Price, max_share_supply, price_validate}
use bitshares_toolkit.Operations.{
  nonneg, positive, is_empty, disjoint, FeeSchedule, fee_at, fee_type_count,
}

-- `a & b` of two `uint16_t`, bit by bit.
abbrev pub bits_and : ℕ → ℕ → ℕ → ℕ
bits_and zero a b = 0
bits_and (suc w) a b = a % 2 * (b % 2) + 2 * bits_and w (a / 2) (b / 2)

abbrev pub and16 : ℕ → ℕ → ℕ
and16 a b = bits_and 16 a b

-- `~b`, of which only the low 16 bits meet those of a `uint16_t`.
abbrev pub complement16 : ℕ → ℕ
complement16 b = 65535 - b

-- The bit mask as a condition.
abbrev pub has_any : ℕ → ℕ → Bool
has_any a mask = not (and16 a mask == 0)

abbrev pub white_list : ℕ
white_list = 2

abbrev pub transfer_restricted : ℕ
transfer_restricted = 16

abbrev pub market_issued : ℕ
market_issued = 32

abbrev pub disable_force_settle : ℕ
disable_force_settle = 64

abbrev pub global_settle : ℕ
global_settle = 128

-- `ASSET_ISSUER_PERMISSION_MASK`
abbrev pub issuer_permission_mask : ℕ
issuer_permission_mask = 1 + 2 + 8 + 16 + 32 + 64 + 128

pub record Authority : Type 0 where
  pub weight_threshold : ℕ
  pub auths : Map ℕ

-- `key_data`: an address or a public key, by the number that its bytes make; the default is 0.
pub data KeyData : Type 0 where
  address : ℕ → KeyData
  public_key : ℕ → KeyData

-- `key_data_validate`
abbrev pub key_is_set : KeyData → Bool
key_is_set (address a) = not (a == 0)
key_is_set (public_key a) = not (a == 0)

pub record AssetOptions : Type 0 where
  pub max_supply : ℤ
  pub market_fee_percent : ℕ
  pub max_market_fee : ℤ
  pub min_market_fee : ℤ
  pub issuer_permissions : ℕ
  pub flags : ℕ
  pub core_exchange_rate : Price
  pub whitelist_authorities : List ℕ
  pub blacklist_authorities : List ℕ
  pub whitelist_markets : List ℕ
  pub blacklist_markets : List ℕ

unfoldable pub options_validate : AssetOptions → Option (Unit {0})
options_validate o = do
  fc_assert (positive o.max_supply)
  fc_assert (leb_ℤ o.max_supply (pos max_share_supply))
  fc_assert (leb o.market_fee_percent 10000)
  fc_assert (nonneg o.max_market_fee && leb_ℤ o.max_market_fee (pos max_share_supply))
  fc_assert (nonneg o.min_market_fee && leb_ℤ o.min_market_fee (pos max_share_supply))
  fc_assert (not (has_any o.issuer_permissions (complement16 issuer_permission_mask)))
  fc_assert (
      if has_any o.issuer_permissions (disable_force_settle + global_settle)
      then has_any o.issuer_permissions market_issued
      else true)
  fc_assert (
      if has_any o.issuer_permissions transfer_restricted
      then not (has_any o.issuer_permissions market_issued)
      else true)
  fc_assert (not (has_any o.flags (complement16 o.issuer_permissions)))
  price_validate o.core_exchange_rate
  fc_assert (o.core_exchange_rate.base.asset_id == 0 || o.core_exchange_rate.quote.asset_id == 0)
  fc_assert_if (not (is_empty o.whitelist_authorities) || not (is_empty o.blacklist_authorities))
      (has_any o.flags white_list)
  fc_assert (disjoint o.whitelist_markets o.blacklist_markets)
  fc_assert (disjoint o.blacklist_markets o.whitelist_markets)

pub record BitassetOptions : Type 0 where
  pub feed_lifetime_sec : ℕ
  pub force_settlement_delay_sec : ℕ
  pub force_settlement_offset_percent : ℕ
  pub maximum_force_settlement_volume : ℕ
  pub short_backing_asset : ℕ
  pub prediction_market : Bool

unfoldable pub bitasset_validate : BitassetOptions → Option (Unit {0})
bitasset_validate o = do
  fc_assert (leb o.force_settlement_offset_percent 10000)
  fc_assert (leb o.maximum_force_settlement_volume 10000)

-- The fields that `chain_parameters::validate` reads, with the others that it carries.
pub record ChainParameters : Type 0 where
  pub current_fees : FeeSchedule
  pub witness_pay_percent_of_accumulated : ℕ
  pub block_interval : ℕ
  pub maintenance_interval : ℕ
  pub maximum_transaction_size : ℕ
  pub maximum_block_size : ℕ
  pub maximum_undo_history : ℕ
  pub maximum_time_until_expiration : ℕ
  pub maximum_proposal_lifetime : ℕ
  pub genesis_proposal_review_period : ℕ
  pub maximum_asset_whitelist_authorities : ℕ
  pub maximum_asset_feed_publishers : ℕ
  pub maximum_witness_count : ℕ
  pub maximum_committee_count : ℕ
  pub maximum_authority_membership : ℕ
  pub burn_percent_of_fee : ℕ
  pub witness_percent_of_fee : ℕ
  pub cashback_vesting_period_seconds : ℕ
  pub max_bulk_discount_percent_of_fee : ℕ
  pub bulk_discount_threshold_min : ℤ
  pub bulk_discount_threshold_max : ℤ
  pub count_non_prime_votes : Bool
  pub allow_non_prime_whitelists : Bool
  pub witness_pay_per_block : ℤ
  pub worker_budget_per_day : ℤ

-- The loop over the fee types.
unfoldable pub fees_nonneg : FeeSchedule → ℕ → Option (Unit {0})
fees_nonneg k zero = some tt
fees_nonneg k (suc i) = do v ← fee_at k i; fc_assert (nonneg v); fees_nonneg k i

-- `maximum_proposal_lifetime - genesis_proposal_review_period > block_interval` on `uint32_t`.
unfoldable pub review_fits : ChainParameters → Bool
review_fits p =
    ltb p.block_interval
      ((p.maximum_proposal_lifetime + (2 ^ 32 - p.genesis_proposal_review_period)) % 2 ^ 32)

unfoldable pub parameters_validate : ChainParameters → Option (Unit {0})
parameters_validate p = do
  fc_assert (leb p.witness_percent_of_fee 10000)
  fc_assert (leb p.burn_percent_of_fee 10000)
  fc_assert (leb p.max_bulk_discount_percent_of_fee 10000)
  fc_assert (leb (p.burn_percent_of_fee + p.witness_percent_of_fee) 10000)
  fc_assert (leb_ℤ p.bulk_discount_threshold_min p.bulk_discount_threshold_max)
  fc_assert (positive p.bulk_discount_threshold_min)
  fc_assert (ltb p.witness_pay_percent_of_accumulated 1000000000)
  fc_assert (leb p.block_interval 30)
  fc_assert (ltb 0 p.block_interval)
  fc_assert (ltb p.block_interval p.maintenance_interval)
  fc_assert (p.maintenance_interval % p.block_interval == 0)
  fc_assert (leb 1024 p.maximum_transaction_size)
  fc_assert (leb (1024 * 5) p.maximum_block_size)
  fc_assert (ltb p.block_interval p.maximum_time_until_expiration)
  fc_assert (review_fits p)
  fees_nonneg p.current_fees fee_type_count
